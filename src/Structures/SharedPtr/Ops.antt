-- ===== src/Structures/SharedPtr/Ops.antt =====
-- Sequences of the operations of include/structures/shared_ptr.hpp and shared_ptr.tpp.
use cantos.Prelude.{ℕ, ◌+◌, ◌<◌, ◌≡◌, ◌≢◌, [], true, false, length, none, u32_mod}
use cantos.Structures.SharedPtr.{
  Pointers, Result, done, decrement_usage, put_live, of_raw, make_shared, copy_of, moved_from,
  destroy, assign, move_assign, assign_null, reset, swap,
}

pub data Op : Type 0 where
  makes : (ref block : ℕ) → Op
  makes_null : (block : ℕ) → Op
  copies moves destroys nulls : (i : ℕ) → Op
  assigns move_assigns swaps : (i j : ℕ) → Op
  resets : (i ref block : ℕ) → Op

abbrev pub start : Pointers
start = record { vars = []; memory = record { uses = λ d. none; live = λ r. false } }

-- Room for one pointer more.
abbrev pub HasRoom : Pointers → Type 0
HasRoom s = length s.vars + 2 < u32_mod

module _ (destruct : ℕ → Pointers → Result Pointers) where
  abbrev pub perform : Op → Pointers → Result Pointers
  perform (makes r d) s = done (make_shared r d s)
  perform (makes_null d) s = done (of_raw 0 d s)
  perform (copies j) s = copy_of j s
  perform (moves j) s = moved_from j s
  perform (destroys i) s = destroy destruct i s
  perform (nulls i) s = assign_null destruct i s
  perform (assigns i j) s = assign destruct i j s
  perform (move_assigns i j) s = move_assign destruct i j s
  perform (swaps i j) s = swap i j s
  perform (resets i r d) s = reset destruct i r d (record s { memory = put_live r true s.memory })

  -- The pointers that an operation names exist, an object that it makes is at an address where there is
  -- none, and so is a block.
  abbrev pub Allowed : Op → Pointers → Type 0
  Allowed (makes r d) s = (r ≢ 0) × (s.memory.live r ≡ false) × (s.memory.uses d ≡ none) × HasRoom s
  Allowed (makes_null d) s = HasRoom s
  Allowed (copies j) s = (j < length s.vars) × HasRoom s
  Allowed (moves j) s = (j < length s.vars) × HasRoom s
  Allowed (destroys i) s = i < length s.vars
  Allowed (nulls i) s = i < length s.vars
  Allowed (assigns i j) s = (i < length s.vars) × (j < length s.vars)
  Allowed (move_assigns i j) s = (i < length s.vars) × (j < length s.vars)
  Allowed (swaps i j) s = (i < length s.vars) × (j < length s.vars)
  Allowed (resets i r d) s =
      (i < length s.vars)
      × (r ≢ 0)
      × (s.memory.live r ≡ false)
      × ((t : Pointers) → decrement_usage destruct i s ≡ done t → t.memory.uses d ≡ none)

  pub data Reaches : Pointers → Type 0 where
    started : Reaches start
    later :
        {s t : Pointers} (op : Op) → Reaches s → Allowed op s → perform op s ≡ done t → Reaches t

-- ===== src/Structures/LinkedList.antt =====
-- The list of include/structures/list.hpp and list.tpp: a singly linked list in a store of its entries,
-- where none stands for memory that is not an entry, and the address 0 for NULL. The addresses of new
-- entries are arguments.
pub mod Contents
pub mod Ends
pub mod Last
mod Tests
use cantos.Prelude.{
  ℕ, zero, suc, ◌+◌, ◌*◌, ◌%◌, ◌^◌, Bool, true, false, List, [], ◌∷◌, Option, none, some, ◌==◌,
  if◌then◌else◌, add32, sub32,
}

module _ (A : Type 0) where
  pub record Entry : Type 0 where
    pub next : ℕ
    pub object : A

  pub record LinkedList : Type 0 where
    pub head : ℕ
    pub tail : ℕ
    pub count : ℕ
    pub entries : ℕ → Option Entry

  -- How an operation ends: with a value, in panic(), in a use of memory that is no entry, or with its
  -- fuel used up.
  pub data Result (B : Type 0) : Type 0 where
    done : B → Result B
    panicked : Result B
    fault : Result B
    exhausted : Result B

module _ {A : Type 0} where
  abbrev pub and_then : {B C : Type 0} → Result A B → (B → Result A C) → Result A C
  and_then (done b) k = k b
  and_then panicked k = panicked
  and_then fault k = fault
  and_then exhausted k = exhausted

  abbrev pub store_at : ℕ → Option (Entry A) → (ℕ → Option (Entry A)) → ℕ → Option (Entry A)
  store_at at e s a = if a == at then e else s a

  abbrev pub empty_list : LinkedList A
  empty_list = record { head = 0; tail = 0; count = 0; entries = λ a. none }

  -- An entry that is read through a pointer.
  abbrev pub read_at : LinkedList A → ℕ → Result A (Entry A)
  read_at l a = elim (l.entries a) [ none ↦ fault | some e ↦ done e ]

  pub front : LinkedList A → Result A A
  front l = and_then (read_at l l.head) (λ e. done e.object)

  pub back : LinkedList A → Result A A
  back l = and_then (read_at l l.tail) (λ e. done e.object)

  pub empty : LinkedList A → Result A Bool
  empty l = if l.head == 0 then (if l.tail == 0 then done true else panicked) else done false

  pub push_front : ℕ → A → LinkedList A → LinkedList A
  push_front at v l =
      if l.head == 0
      then record {
        head = at;
        tail = at;
        count = add32 l.count 1;
        entries = store_at at (some (record { next = 0; object = v })) l.entries;
      }
      else record {
        head = at;
        tail = l.tail;
        count = add32 l.count 1;
        entries = store_at at (some (record { next = l.head; object = v })) l.entries;
      }

  pub pop_front : LinkedList A → Result A (LinkedList A)
  pop_front l =
      if l.head == 0
      then panicked
      else and_then (read_at l l.head) (λ e. done (record {
        head = e.next;
        tail = if e.next == 0 then 0 else l.tail;
        count = sub32 l.count 1;
        entries = store_at l.head none l.entries;
      }))

  pub push_back : ℕ → A → LinkedList A → Result A (LinkedList A)
  push_back at v l =
      let store = store_at at (some (record { next = 0; object = v })) l.entries in
      if l.head == 0
      then done (record { head = at; tail = at; count = add32 l.count 1; entries = store })
      else and_then (read_at l l.tail) (λ e. done (record {
        head = l.head;
        tail = at;
        count = add32 l.count 1;
        entries = store_at l.tail (some (record e { next = at })) store;
      }))

  -- The loop of pop_back: the entry before the last.
  pub before_tail : ℕ → LinkedList A → ℕ → Result A (ℕ × Entry A)
  before_tail zero l a = exhausted
  before_tail (suc fuel) l a =
      and_then (read_at l a) (λ e.
        let rest = before_tail fuel l e.next in if e.next == l.tail then done (a, e) else rest)

  pub pop_back : ℕ → LinkedList A → Result A (LinkedList A)
  unfolding before_tail
  pop_back fuel l =
      if l.head == 0
      then panicked
      else if l.head == l.tail
      then done (record {
        head = 0;
        tail = 0;
        count = sub32 l.count 1;
        entries = store_at l.head none l.entries;
      })
      else and_then (before_tail fuel l l.head) (λ (a, e). done (record {
        head = l.head;
        tail = a;
        count = sub32 l.count 1;
        entries = store_at l.tail none (store_at a (some (record e { next = 0 })) l.entries);
      }))

  -- The entries that ~unique_ptr deletes one behind the other.
  pub free_from : ℕ → (ℕ → Option (Entry A)) → ℕ → Result A (ℕ → Option (Entry A))
  free_from zero s a = exhausted
  free_from (suc fuel) s a =
      if a == 0
      then done s
      else elim (s a) [ none ↦ fault | some e ↦ free_from fuel (store_at a none s) e.next ]

  pub clear_list : ℕ → LinkedList A → Result A (LinkedList A)
  unfolding free_from
  clear_list fuel l =
      and_then (free_from fuel l.entries l.head)
        (λ s. done (record { head = 0; tail = 0; count = 0; entries = s }))

  -- `prev->next = move(now->next)`, or that of head for a NULL prev.
  abbrev pub unlink : ℕ → ℕ → ℕ → LinkedList A → Result A (LinkedList A)
  unlink prev now next l =
      if prev == 0
      then done
          (record l { head = next; count = sub32 l.count 1; entries = store_at now none l.entries })
      else and_then (read_at l prev) (λ p. done (record l {
        count = sub32 l.count 1;
        entries = store_at now none (store_at prev (some (record p { next = next })) l.entries);
      }))

  -- The loop of remove.
  pub remove_equal : ℕ → (A → Bool) → ℕ → ℕ → LinkedList A → Result A (LinkedList A)
  remove_equal zero equal prev now l = exhausted
  remove_equal (suc fuel) equal prev now l =
      if now == 0
      then done (record l { tail = prev })
      else and_then (read_at l now) (λ e.
        let kept = remove_equal fuel equal now e.next l in
        if equal e.object
        then and_then (unlink prev now e.next l) (remove_equal fuel equal prev e.next)
        else kept)

  pub remove : ℕ → (A → Bool) → LinkedList A → Result A (LinkedList A)
  unfolding remove_equal
  remove fuel equal l = if l.head == 0 then done l else remove_equal fuel equal 0 l.head l

  -- The loop of erase.
  pub erase_from : ℕ → ℕ → ℕ → ℕ → LinkedList A → Result A (LinkedList A)
  erase_from zero entry prev now l = exhausted
  erase_from (suc fuel) entry prev now l =
      if now == 0
      then panicked
      else and_then (read_at l now) (λ e.
        let rest = erase_from fuel entry now e.next l in
        if now == entry
        then unlink prev now e.next (record l { tail = if e.next == 0 then prev else l.tail })
        else rest)

  -- erase, with the iterator behind the entry.
  pub erase : ℕ → ℕ → LinkedList A → Result A (ℕ × LinkedList A)
  unfolding erase_from
  erase fuel entry l =
      and_then (read_at l entry)
        (λ e. and_then (erase_from fuel entry 0 l.head l) (λ l'. done (e.next, l')))

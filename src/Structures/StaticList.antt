-- ===== src/Structures/StaticList.antt =====
-- StaticList<T, C> of include/structures/static_list.hpp and static_list.tpp: a cyclic buffer of
-- `capacity` places. An operation runs with the interrupts off and the list's own mutex held, so
-- it is one step; a pop of an empty list is `none`, which stands for panic(). The two push
-- overloads and emplace store a value in the same way.
pub mod Contents
pub mod Push
pub mod Pop
mod Tests
use cantos.Prelude.{ℕ, zero, suc, ◌+◌, ◌-◌, ◌%◌, Bool, Option, none, some, leb, ◌==◌, if◌then◌else◌}

pub record StaticList {ℓ} (T : Type ℓ) : Type ℓ where
  pub objects : ℕ → T
  pub capacity : ℕ
  pub head : ℕ
  pub tail : ℕ

-- `x ? x - 1 : C - 1`
abbrev pub back_from : ℕ → ℕ → ℕ
back_from capacity zero = capacity - 1
back_from capacity (suc x) = x

module _ {ℓ} {T : Type ℓ} where
  abbrev pub store : (ℕ → T) → ℕ → T → ℕ → T
  store objects i v j = if j == i then v else objects j

  pub empty : StaticList T → Bool
  empty l = l.head == l.tail

  pub size : StaticList T → ℕ
  size l = if leb l.head l.tail then l.tail - l.head else l.capacity + l.tail - l.head

  pub clear : StaticList T → StaticList T
  clear l = record l { head = l.tail }

  pub front : StaticList T → T
  front l = l.objects l.head

  pub back : StaticList T → T
  back l = l.objects (back_from l.capacity l.tail)

  pub push_front : T → StaticList T → StaticList T
  push_front v l =
      let head = back_from l.capacity l.head in
      record l { head = head; objects = store l.objects head v }

  pub pop_front : StaticList T → Option (T × StaticList T)
  unfolding empty
  pop_front l =
      if empty l
      then none
      else some (l.objects l.head, record l { head = (l.head + 1) % l.capacity })

  pub push_back : T → StaticList T → StaticList T
  push_back v l = record l { objects = store l.objects l.tail v; tail = (l.tail + 1) % l.capacity }

  pub pop_back : StaticList T → Option (T × StaticList T)
  unfolding empty
  pop_back l =
      if empty l
      then none
      else let tail = back_from l.capacity l.tail in some (l.objects tail, record l { tail = tail })

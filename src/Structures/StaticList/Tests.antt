-- ===== src/Structures/StaticList/Tests.antt =====
-- Runs of include/structures/static_list.tpp, and its theorems there.
use cantos.Prelude.{ℕ, ◌+◌, ◌≡◌, refl, [], ◌∷◌}
use cantos.Structures.StaticList.{StaticList, size}
use cantos.Structures.StaticList.Contents.{contents}

-- Two values round the end of an array of four.
abbrev round : StaticList ℕ
round = record { objects = λ i. i + 10; capacity = 4; head = 3; tail = 1 }

abbrev nearly_full : StaticList ℕ
nearly_full = record { objects = λ i. i; capacity = 4; head = 3; tail = 2 }

round_holds : contents round ≡ 13 ∷ 10 ∷ []
unfolding size
round_holds = refl

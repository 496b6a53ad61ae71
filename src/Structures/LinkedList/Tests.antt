-- ===== src/Structures/LinkedList/Tests.antt =====
-- Runs of the list of include/structures/list.tpp on short lists, and the theorems there.
use cantos.Prelude.{ℕ, ◌≡◌, refl, [], ◌∷◌, ◌==◌, arith}
use cantos.Structures.LinkedList.{
  LinkedList, Result, done, panicked, empty_list, push_front, pop_back, remove, back, front,
}
use cantos.Structures.LinkedList.Contents.{Contents, push_front-Contents}
use cantos.Structures.LinkedList.Last.{pop_back-Contents}

abbrev five : LinkedList ℕ
unfolding push_front
five = push_front 0x10 5 empty_list

abbrev four_five : LinkedList ℕ
unfolding push_front
four_five = push_front 0x20 4 five

abbrev four_five_four : LinkedList ℕ
unfolding push_front
four_five_four = push_front 0x30 4 four_five

back_of : Result ℕ (LinkedList ℕ) → Result ℕ ℕ
unfolding back
back_of (done l) = back l
back_of r = panicked

front_of : Result ℕ (LinkedList ℕ) → Result ℕ ℕ
unfolding front
front_of (done l) = front l
front_of r = panicked

back_five : back four_five ≡ done 5
unfolding back four_five five
back_five = refl

pop_back_four : back_of (pop_back 2 four_five) ≡ done 4
unfolding pop_back back_of four_five five
pop_back_four = refl

pop_empty : pop_back 0 (empty_list {A = ℕ}) ≡ panicked
unfolding pop_back
pop_empty = refl

remove_fours : back_of (remove 4 (λ x. x == 4) four_five_four) ≡ done 5
unfolding remove back_of four_five_four four_five five
remove_fours = refl

remove_front : front_of (remove 4 (λ x. x == 4) four_five_four) ≡ done 5
unfolding remove front_of four_five_four four_five five
remove_front = refl

empty-Contents : Contents (empty_list {A = ℕ}) [] []
empty-Contents = record { head = refl; tail = refl; count = refl; linked = tt; distinct = tt }

five-Contents : Contents five (0x10 ∷ []) (5 ∷ [])
unfolding five
five-Contents =
    push_front-Contents empty_list [] [] 0x10 5 empty-Contents (λ e. omega (arith, e)) tt

four_five-Contents : Contents four_five (0x20 ∷ 0x10 ∷ []) (4 ∷ 5 ∷ [])
unfolding four_five
four_five-Contents =
    push_front-Contents five (0x10 ∷ []) (5 ∷ []) 0x20 4 five-Contents (λ e. omega (arith, e))
      ((λ e. omega (arith, e)), tt)

pop_back-Contents_example :
    (l' : LinkedList ℕ) × (pop_back 1 four_five ≡ done l') × Contents l' (0x20 ∷ []) (4 ∷ [])
pop_back-Contents_example =
    pop_back-Contents 1 four_five 0x20 (0x10 ∷ []) 4 (5 ∷ []) four_five-Contents (omega arith)

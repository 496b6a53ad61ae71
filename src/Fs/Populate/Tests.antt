-- ===== src/Fs/Populate/Tests.antt =====
-- Runs of FilePathEntry::populate of src/fs/filesystem.cpp in a small tree.
use cantos.Prelude.{
  ℕ, ◌<◌, ◌≡◌, refl, true, false, List, [], ◌∷◌, Option, none, some, ◌==◌, if◌then◌else◌, arith,
  ltb, Bool-cases, inl, inr,
}
use cantos.Fs.Populate.{
  eok, dot, dot_dot, Inode, FilePathEntry, Paths, Ending, done, fault, same_name, logical_parent,
  get_inode, find_child, search_dir, populate_name, populate,
}
use cantos.Fs.Populate.Leads.{at_root}
use cantos.Fs.Populate.Walk.{walk, Walked, populate-walk}

-- The names a and b.
abbrev name_a : List ℕ
name_a = 0x61 ∷ []

abbrev name_b : List ℕ
name_b = 0x62 ∷ []

-- The root has a directory a with a file b.
abbrev some_inodes : ℕ → Inode
some_inodes i =
    if i == 0
    then record { is_directory = true; children = record { inode = 1; name = name_a } ∷ [] }
    else if i == 1
    then record { is_directory = true; children = record { inode = 2; name = name_b } ∷ [] }
    else record { is_directory = false; children = [] }

-- The driver finds the inodes 0, 1 and 2, or none with number 2; it has no others.
abbrev read_all : ℕ → ℕ → Option ℕ
read_all dir n = if ltb n 3 then some n else none

abbrev read_some : ℕ → ℕ → Option ℕ
read_some dir n = if n == 2 then none else some n

abbrev fresh_entry : ℕ → List ℕ → FilePathEntry
fresh_entry p name = record { parent = some p; ref = none; inode = none; name = name }

-- The entries of a path with two names.
abbrev path_of : List ℕ → List ℕ → Paths
path_of first second = record {
  entries = λ i.
      if i == 0
      then record { parent = none; ref = none; inode = some 0; name = [] }
      else if i == 1
      then fresh_entry 0 first
      else fresh_entry 1 second;
  error_loc = fresh_entry 0 [];
}

-- The result, and the inode of the last entry.
abbrev result_of : Ending → Option (ℕ × Option (Option ℕ))
result_of (done err s) = some (err, get_inode 5 s.entries 2)
result_of r = none

populate_up :
    result_of (populate some_inodes read_all 5 2 (path_of name_a dot_dot))
    ≡ some (eok, some (some 0))
unfolding populate populate_name search_dir find_child same_name get_inode logical_parent
populate_up = refl

populate_here :
    result_of (populate some_inodes read_all 5 2 (path_of name_a dot)) ≡ some (eok, some (some 1))
unfolding populate populate_name search_dir find_child same_name get_inode logical_parent
populate_here = refl

-- An inode that cannot be read: the result is that for the parent, without an error and without an inode.
populate_unread :
    result_of (populate some_inodes read_some 5 2 (path_of name_a name_b)) ≡ some (eok, some none)
unfolding populate populate_name search_dir find_child same_name get_inode logical_parent
populate_unread = refl

-- When the parent has its inode already, the result has no value.
populate_unset : populate some_inodes (λ dir n. none) 5 1 (path_of name_a name_b) ≡ fault
unfolding populate populate_name search_dir find_child same_name get_inode logical_parent
populate_unset = refl

-- The entries of a/../a/b.
abbrev long_path : Paths
long_path = record {
  entries = λ i.
      if i == 0
      then record { parent = none; ref = none; inode = some 0; name = [] }
      else if i == 1
      then fresh_entry 0 name_a
      else if i == 2
      then fresh_entry 1 dot_dot
      else if i == 3
      then fresh_entry 2 name_a
      else fresh_entry 3 name_b;
  error_loc = fresh_entry 0 [];
}

only_child :
    (k n : ℕ) (child name : List ℕ)
    → k < 3
    → find_child name (record { inode = k; name = child } ∷ []) ≡ some n
    → (if ltb n 3 then some n else none) ≡ some n
unfolding find_child
only_child k n child name small there = elim (Bool-cases (same_name child name)) [
  | inl same ↦
      let value : some k ≡ some n = rw same at there in
      let equal : k ≡ n = cc in let within : ltb n 3 ≡ true = ground arith in rw within refl
  | inr other ↦ let nothing : none ≡ some n = rw other at there in absurd cc
]

-- Every child that a directory lists is one that the driver finds.
children-read :
    (dir n : ℕ) (name : List ℕ)
    → find_child name (some_inodes dir).children ≡ some n
    → read_all dir n ≡ some n
unfolding find_child
children-read dir n name there = elim (Bool-cases (dir == 0)) [
  | inl root ↦ only_child 1 n name_a name (omega arith) (rw root at there)
  | inr inner ↦ elim (Bool-cases (dir == 1)) [
    | inl first ↦ only_child 2 n name_b name (omega arith) (rw (inner, first) at there)
    | inr other ↦ let nothing : none ≡ some n = rw (inner, other) at there in absurd cc
  ]
]

populate-walk_example :
    Walked
      (populate some_inodes read_all 5 4 long_path)
      (walk some_inodes (λ dir n. n) 0 [] (name_b ∷ name_a ∷ dot_dot ∷ name_a ∷ []))
      4
      long_path
populate-walk_example =
    populate-walk some_inodes read_all (λ dir n. n) children-read name_b
      (name_a ∷ dot_dot ∷ name_a ∷ []) 5 0 [] 4 long_path
      (
        refl,
        refl,
        refl,
        (
          3,
          refl,
          omega arith,
          (
            refl,
            refl,
            refl,
            (
              2,
              refl,
              omega arith,
              (
                refl,
                refl,
                refl,
                (
                  1,
                  refl,
                  omega arith,
                  (refl, refl, refl, (0, refl, omega arith, at_root 0 0 refl refl refl)),
                ),
              ),
            ),
          ),
        ),
      )
      (omega arith)

-- ===== src/Fs/Populate.antt =====
-- FilePathEntry::populate of src/fs/filesystem.cpp. Entries and inodes stand for their addresses by numbers,
-- and a name is the list of its bytes, which are what operator == compares. read_inode is virtual and an
-- argument; the inodes do not change. The place for an entry with an error is none of the entries of a path.
-- An entry can refer to another, so that the searches through references take fuel.
pub mod Leads
pub mod Lookup
mod Tests
pub mod Walk
use cantos.Prelude.{
  ℕ, zero, suc, Bool, true, false, ◌&&◌, List, [], ◌∷◌, Option, none, some, ◌==◌, if◌then◌else◌,
}

abbrev pub eok : ℕ
eok = 0

abbrev pub enoent : ℕ
enoent = 3

abbrev pub enotdir : ℕ
enotdir = 4

abbrev pub dot : List ℕ
dot = 0x2e ∷ []

abbrev pub dot_dot : List ℕ
dot_dot = 0x2e ∷ 0x2e ∷ []

pub record InodeEntry : Type 0 where
  pub inode : ℕ
  pub name : List ℕ

pub record Inode : Type 0 where
  pub is_directory : Bool
  pub children : List InodeEntry

pub record FilePathEntry : Type 0 where
  pub parent : Option ℕ
  pub ref : Option ℕ
  pub inode : Option ℕ
  pub name : List ℕ

pub record Paths : Type 0 where
  pub entries : ℕ → FilePathEntry
  pub error_loc : FilePathEntry

-- How populate ends: with a result, in a read of a null pointer or of a variable without a value, or with
-- its fuel used up.
pub data Ending : Type 0 where
  done : ℕ → Paths → Ending
  fault : Ending
  exhausted : Ending

pub same_name : List ℕ → List ℕ → Bool
same_name [] [] = true
same_name [] (y ∷ ys) = false
same_name (x ∷ xs) [] = false
same_name (x ∷ xs) (y ∷ ys) = (x == y) && same_name xs ys

abbrev pub with_entry : ℕ → FilePathEntry → Paths → Paths
with_entry e x s = record s { entries = λ i. if i == e then x else s.entries i }

pub logical_parent : ℕ → (ℕ → FilePathEntry) → ℕ → Option ℕ
logical_parent zero entries e = none
logical_parent (suc fuel) entries e = elim (entries e).ref [
  | some r ↦ logical_parent fuel entries r
  | none ↦ elim (entries e).parent [ none ↦ some e | some p ↦ some p ]
]

pub get_inode : ℕ → (ℕ → FilePathEntry) → ℕ → Option (Option ℕ)
get_inode zero entries e = none
get_inode (suc fuel) entries e = elim (entries e).ref [
  | some r ↦ get_inode fuel entries r
  | none ↦ some (entries e).inode
]

-- The loop over the children of a directory.
pub find_child : List ℕ → List InodeEntry → Option ℕ
unfolding same_name
find_child name [] = none
find_child name (c ∷ rest) = if same_name c.name name then some c.inode else find_child name rest

module _ (inodes : ℕ → Inode) (read_inode : ℕ → ℕ → Option ℕ) where
  -- What a child that was found is: `err` is what it was before, with none for no value.
  abbrev pub enter : ℕ → Option ℕ → Option ℕ → Paths → Ending
  enter e (some v) err s = done eok (with_entry e (record (s.entries e) { inode = some v }) s)
  enter e none (some err) s = done err (with_entry e (record (s.entries e) { inode = none }) s)
  enter e none none s = fault

  -- populate from the test of the directory on.
  pub search_dir : ℕ → Option ℕ → Option ℕ → Paths → Ending
  unfolding find_child
  search_dir e none err s = fault
  search_dir e (some dir) err s = elim (inodes dir).is_directory [
    | false ↦ elim (s.entries e).parent [
      | none ↦ fault
      | some p ↦ done enotdir (record s { error_loc = s.entries p })
    ]
    | true ↦ elim (find_child (s.entries e).name (inodes dir).children) [
      | none ↦ done enoent s
      | some n ↦ enter e (read_inode dir n) err s
    ]
  ]

  -- populate from the tests of the name on.
  pub populate_name : ℕ → ℕ → ℕ → Option ℕ → Paths → Ending
  unfolding search_dir get_inode logical_parent same_name
  populate_name fuel e lp err s =
      if same_name (s.entries e).name dot
      then done eok (with_entry e (record (s.entries e) { ref = some lp }) s)
      else if same_name (s.entries e).name dot_dot
      then elim (logical_parent fuel s.entries lp) [
        | none ↦ exhausted
        | some r ↦ done eok (with_entry e (record (s.entries e) { ref = some r }) s)
      ]
      else elim (get_inode fuel s.entries lp) [
        | none ↦ exhausted
        | some dir ↦ search_dir e dir err (record s { error_loc = s.entries e })
      ]

  -- What follows the call for the parent.
  abbrev pub after_parent : ℕ → ℕ → ℕ → Ending → Ending
  after_parent fuel e lp (done err s) =
      if err == eok then populate_name fuel e lp (some err) s else done err s
  after_parent fuel e lp fault = fault
  after_parent fuel e lp exhausted = exhausted

  pub populate : ℕ → ℕ → Paths → Ending
  unfolding populate_name
  populate zero e s = exhausted
  populate (suc fuel) e s = elim (logical_parent fuel s.entries e) [
    | none ↦ exhausted
    | some lp ↦ elim (get_inode fuel s.entries lp) [
      | none ↦ exhausted
      | some (some dir) ↦ populate_name fuel e lp none s
      | some none ↦ elim (s.entries e).parent [
        | none ↦ fault
        | some p ↦ after_parent fuel e lp (populate fuel p s)
      ]
    ]
  ]

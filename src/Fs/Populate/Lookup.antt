-- ===== src/Fs/Populate/Lookup.antt =====
-- The search of a directory in FilePathEntry::populate of src/fs/filesystem.cpp.
use cantos.Prelude.{
  ap, ℕ, ◌<◌, ◌≡◌, refl, true, false, List, Option, none, some, ◌==◌, if◌then◌else◌, arith,
  Bool-cases, inl, inr, Option-cases,
}
use cantos.Fs.Populate.{
  eok, enoent, enotdir, Inode, FilePathEntry, Paths, Ending, done, with_entry, find_child,
  search_dir,
}

-- What a name leads to: an inode, or an error.
pub data Target : Type 0 where
  reached : ℕ → Target
  failed : ℕ → Target

module _ (inodes : ℕ → Inode) (number : ℕ → ℕ → ℕ) where
  abbrev pub child : ℕ → Option ℕ → Target
  child dir (some n) = reached (number dir n)
  child dir none = failed enoent

  -- A name in a directory.
  abbrev pub lookup : List ℕ → Target → Target
  lookup name (reached dir) =
      if (inodes dir).is_directory
      then child dir (find_child name (inodes dir).children)
      else failed enotdir
  lookup name (failed err) = failed err

-- How the search for an entry ends: without an error and with the inode in the entry, or with the error.
abbrev pub Outcome : Target → ℕ → FilePathEntry → Type 0
Outcome (reached dir) err x = (err ≡ eok) × (x.inode ≡ some dir) × (x.ref ≡ none)
Outcome (failed code) err x = (err ≡ code) × (code == eok ≡ false)

pub record Populated (r : Ending) (f : Target) (e : ℕ) (s : Paths) : Type 0 where
  pub err : ℕ
  pub after : Paths
  pub run : r ≡ done err after
  pub outcome : Outcome f err (after.entries e)
  pub kept : (after.entries e).parent ≡ (s.entries e).parent
  pub others : (i : ℕ) → e < i → after.entries i ≡ s.entries i

-- The search of a directory changes no other entry at all.
pub record Searched (r : Ending) (f : Target) (e : ℕ) (s : Paths) : Type 0 where
  pub populated : Populated r f e s
  pub earlier : (i : ℕ) → i < e → populated.after.entries i ≡ s.entries i

module _ (inodes : ℕ → Inode) (read_inode : ℕ → ℕ → Option ℕ) (number : ℕ → ℕ → ℕ)
    (reads : (dir n : ℕ) (name : List ℕ)
      → find_child name (inodes dir).children ≡ some n
      → read_inode dir n ≡ some (number dir n)) where
  pub same_entry : (e : ℕ) (x : FilePathEntry) (s : Paths) → (with_entry e x s).entries e ≡ x
  same_entry e x s = let self : e == e ≡ true = ground arith in rw self refl

  pub other_entry :
      (e : ℕ) (x : FilePathEntry) (s : Paths) (i : ℕ)
      → e < i
      → (with_entry e x s).entries i ≡ s.entries i
  other_entry e x s i above = let other : i == e ≡ false = ground arith in rw other refl

  pub search_dir-Searched :
      (e p dir : ℕ) (err : Option ℕ) (name : List ℕ) (s : Paths)
      → (s.entries e).ref ≡ none
      → (s.entries e).name ≡ name
      → (s.entries e).parent ≡ some p
      → Searched
          (search_dir inodes read_inode e (some dir) err s)
          (lookup inodes number name (reached dir))
          e
          s
  unfolding search_dir
  search_dir-Searched e p dir err name s no_ref named parent =
      elim (Bool-cases (inodes dir).is_directory) [
        | inr file ↦ record {
          populated = record {
            err = enotdir;
            after = record s { error_loc = s.entries p };
            run = rw (search_dir, file, parent) refl;
            outcome = rw file (refl, refl);
            kept = refl;
            others = λ i above. refl;
          };
          earlier = λ i below. refl;
        }
        | inl directory ↦ elim (Option-cases (find_child name (inodes dir).children)) [
          | inl missing ↦
              let none_at : find_child (s.entries e).name (inodes dir).children ≡ none =
                rw named missing in
              record {
                populated = record {
                  err = enoent;
                  after = s;
                  run = rw (search_dir, directory, none_at) refl;
                  outcome = rw (directory, missing) (refl, refl);
                  kept = refl;
                  others = λ i above. refl;
                };
                earlier = λ i below. refl;
              }
          | inr (n, at) ↦
              let some_at : find_child (s.entries e).name (inodes dir).children ≡ some n =
                rw named at in
              let x : FilePathEntry = record (s.entries e) { inode = some (number dir n) } in
              record {
                populated = record {
                  err = eok;
                  after = with_entry e x s;
                  run = rw (search_dir, directory, some_at, reads dir n name at) refl;
                  outcome = rw (directory, at) (rw (same_entry e x s) (refl, refl, no_ref));
                  kept = ap (λ (y : FilePathEntry). y.parent) (same_entry e x s);
                  others = other_entry e x s;
                };
                earlier = λ i below. let other : i == e ≡ false = ground arith in rw other refl;
              }
        ]
      ]

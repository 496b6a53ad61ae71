-- ===== src/Fs/Populate/Walk.antt =====
-- What FilePathEntry::populate of src/fs/filesystem.cpp finds for a path, with . and .. in it.
use cantos.Prelude.{
  ℕ, zero, suc, ◌<◌, ◌≡◌, refl, ap, ◌∙◌, true, false, List, [], ◌∷◌, Option, none, some, ◌==◌,
  if◌then◌else◌, arith, Bool-cases, inl, inr,
}
use cantos.Fs.Populate.{
  eok, dot, dot_dot, Inode, FilePathEntry, Paths, Ending, done, same_name, with_entry,
  logical_parent, get_inode, find_child, search_dir, populate_name, after_parent, populate,
}
use cantos.Fs.Populate.Leads.{
  Leads, refers, inside, up_from, above_up, get_inode-Leads, logical_parent-Upper, Leads-same,
}
use cantos.Fs.Populate.Lookup.{
  Target, reached, failed, lookup, Searched, same_entry, other_entry, search_dir-Searched,
}

-- An inode below those of a list, the innermost first, or an error.
pub data Place : Type 0 where
  at : ℕ → List ℕ → Place
  error : ℕ → Place

abbrev pub into : Target → ℕ → List ℕ → Place
into (reached found) dir above = at found (dir ∷ above)
into (failed code) dir above = error code

module _ (inodes : ℕ → Inode) (number : ℕ → ℕ → ℕ) where
  -- One name of a path.
  abbrev pub walk_name : List ℕ → Place → Place
  walk_name name (error code) = error code
  walk_name name (at dir above) =
      if same_name name dot
      then at dir above
      else if same_name name dot_dot
      then at (up_from dir above) (above_up above)
      else into (lookup inodes number name (reached dir)) dir above

  -- A path, with its last name first, from an inode on.
  pub walk : ℕ → List ℕ → List (List ℕ) → Place
  walk dir above [] = at dir above
  walk dir above (name ∷ names) = walk_name name (walk dir above names)

-- The entries from `e` on as parse_path makes them, the last name first, down to an entry that leads to an
-- inode.
abbrev pub PathTo : (ℕ → FilePathEntry) → ℕ → List ℕ → ℕ → List (List ℕ) → Type 0
PathTo entries dir above e [] = Leads entries e dir above
PathTo entries dir above e (name ∷ names) =
    ((entries e).ref ≡ none)
    × ((entries e).inode ≡ none)
    × ((entries e).name ≡ name)
    × ((p : ℕ) × ((entries e).parent ≡ some p) × (p < e) × PathTo entries dir above p names)

-- How populate of such an entry ends.
abbrev pub EndsAt : Place → ℕ → (ℕ → FilePathEntry) → ℕ → Type 0
EndsAt (at dir above) err entries e = (err ≡ eok) × Leads entries e dir above
EndsAt (error code) err entries e = (err ≡ code) × (code == eok ≡ false)

pub record Walked (r : Ending) (place : Place) (e : ℕ) (s : Paths) : Type 0 where
  pub err : ℕ
  pub after : Paths
  pub run : r ≡ done err after
  pub ends : EndsAt place err after.entries e
  pub others : (i : ℕ) → e < i → after.entries i ≡ s.entries i

module _ (inodes : ℕ → Inode) (read_inode : ℕ → ℕ → Option ℕ) (number : ℕ → ℕ → ℕ)
    (reads : (dir n : ℕ) (name : List ℕ)
      → find_child name (inodes dir).children ≡ some n
      → read_inode dir n ≡ some (number dir n)) where
  -- A reference to an earlier entry.
  reference-Leads :
      (e r dir : ℕ) (above : List ℕ) (s : Paths)
      → r < e
      → Leads s.entries r dir above
      → Leads (with_entry e (record (s.entries e) { ref = some r }) s).entries e dir above
  reference-Leads e r dir above s less leads =
      let x : FilePathEntry = record (s.entries e) { ref = some r } in
      refers e r dir above
        (ap (λ (y : FilePathEntry). y.ref) (same_entry inodes read_inode number reads e x s)) less
        (Leads-same s.entries (with_entry e x s).entries r dir above
          (λ i below. let other : i == e ≡ false = ground (arith, below, less) in rw other refl)
          leads)

  -- A name other than the two special ones.
  found-Walked :
      (e p dir : ℕ) (above : List ℕ) (s : Paths) (f : Target) (r : Ending)
      → Leads s.entries p dir above
      → (s.entries e).parent ≡ some p
      → p < e
      → Searched r f e s
      → Walked r (into f dir above) e s
  found-Walked e p dir above s (failed code) r leads parent less found = record {
    err = found.populated.err;
    after = found.populated.after;
    run = found.populated.run;
    ends = found.populated.outcome;
    others = found.populated.others;
  }
  found-Walked e p dir above s (reached v) r leads parent less found =
      let now = found.populated in
      record {
        err = now.err;
        after = now.after;
        run = now.run;
        ends = (
          now.outcome.0,
          inside e p v dir above now.outcome.2 (now.kept ∙ parent) now.outcome.1 less (
              Leads-same s.entries now.after.entries p dir above
                (λ i below. found.earlier i (omega (arith, below, less))) leads),
        );
        others = now.others;
      }

  populate_name-Walked :
      (fuel e p dir : ℕ) (above : List ℕ) (err : Option ℕ) (name : List ℕ) (s : Paths)
      → (s.entries e).ref ≡ none
      → (s.entries e).name ≡ name
      → (s.entries e).parent ≡ some p
      → p < e
      → p < fuel
      → Leads s.entries p dir above
      → Walked
          (populate_name inodes read_inode fuel e p err s)
          (walk_name inodes number name (at dir above))
          e
          s
  unfolding populate_name
  populate_name-Walked fuel e p dir above err name s no_ref named parent less enough leads =
      elim (Bool-cases (same_name name dot)) [
        | inl here ↦
            let is_dot : same_name (s.entries e).name dot ≡ true = rw named here in
            let x : FilePathEntry = record (s.entries e) { ref = some p } in
            record {
              err = eok;
              after = with_entry e x s;
              run = rw (populate_name, is_dot) refl;
              ends = rw here (refl, reference-Leads e p dir above s less leads);
              others = other_entry inodes read_inode number reads e x s;
            }
        | inr not_here ↦ elim (Bool-cases (same_name name dot_dot)) [
          | inl up ↦
              let no_dot : same_name (s.entries e).name dot ≡ false = rw named not_here in
              let is_dot_dot : same_name (s.entries e).name dot_dot ≡ true = rw named up in
              let parent_of = logical_parent-Upper s.entries fuel p dir above leads enough in
              let x : FilePathEntry = record (s.entries e) { ref = some parent_of.at } in
              record {
                err = eok;
                after = with_entry e x s;
                run = rw (populate_name, no_dot, is_dot_dot, parent_of.run) refl;
                ends =
                    rw (not_here, up)
                      (
                        refl,
                        reference-Leads e parent_of.at (up_from dir above) (above_up above) s
                            (omega (arith, less, parent_of.least)) parent_of.leads,
                      );
                others = other_entry inodes read_inode number reads e x s;
              }
          | inr not_up ↦
              let no_dot : same_name (s.entries e).name dot ≡ false = rw named not_here in
              let no_dot_dot : same_name (s.entries e).name dot_dot ≡ false = rw named not_up in
              let marked : Paths = record s { error_loc = s.entries e } in
              let searched =
                search_dir-Searched inodes read_inode number reads e p dir err name marked no_ref
                  named parent in
              let found =
                found-Walked e p dir above marked (lookup inodes number name (reached dir))
                  (search_dir inodes read_inode e (some dir) err marked) leads parent less
                  searched in
              record {
                err = found.err;
                after = found.after;
                run =
                    rw
                      (
                        populate_name,
                        no_dot,
                        no_dot_dot,
                        get_inode-Leads s.entries fuel p dir above leads enough,
                      )
                      found.run;
                ends = rw (not_here, not_up) found.ends;
                others = found.others;
              }
        ]
      ]

  -- Behind the call for the parent.
  after_parent-Walked :
      (fuel e p : ℕ) (name : List ℕ) (s : Paths) (r : Ending) (place : Place)
      → (s.entries e).ref ≡ none
      → (s.entries e).name ≡ name
      → (s.entries e).parent ≡ some p
      → p < e
      → p < fuel
      → Walked r place p s
      → Walked (after_parent inodes read_inode fuel e p r) (walk_name inodes number name place) e s
  after_parent-Walked fuel e p name s r (error code) no_ref named parent less enough earlier =
      let bad : earlier.err == eok ≡ false = rw earlier.ends.0 earlier.ends.1 in
      record {
        err = earlier.err;
        after = earlier.after;
        run = rw (earlier.run, bad) refl;
        ends = earlier.ends;
        others = λ i above. earlier.others i (omega (arith, less, above));
      }
  after_parent-Walked fuel e p name s r (at dir above) no_ref named parent less enough earlier =
      let same : earlier.after.entries e ≡ s.entries e = earlier.others e less in
      let good : earlier.err == eok ≡ true = rw earlier.ends.0 refl in
      let later =
        populate_name-Walked fuel e p dir above (some earlier.err) name earlier.after
          (rw same no_ref) (rw same named) (rw same parent) less enough earlier.ends.1 in
      record {
        err = later.err;
        after = later.after;
        run = rw (earlier.run, good) later.run;
        ends = later.ends;
        others = λ i over. later.others i over ∙ earlier.others i (omega (arith, less, over));
      }

  -- populate of an entry made for the last name of a path, whose other entries are not populated
  -- either, down to one that leads to an inode below a list of directories, returns. Without an error,
  -- the entry leads to where the walk over the names ends: . stays, .. goes to the directory above, or
  -- stays at the root, and any other name is looked up. With an error, it is that of the first name
  -- that is missing or that is looked up in a file. The entries above it are what they were.
  -- read_inode finds every inode that is listed among the children of one, parents and references have
  -- smaller numbers, and the fuel is above that of the entry.
  pub populate-walk :
      (name : List ℕ) (names : List (List ℕ)) (fuel dir : ℕ) (above : List ℕ) (e : ℕ) (s : Paths)
      → PathTo s.entries dir above e (name ∷ names)
      → e < fuel
      → Walked
          (populate inodes read_inode fuel e s)
          (walk inodes number dir above (name ∷ names))
          e
          s
  unfolding populate logical_parent get_inode walk
  populate-walk name names zero dir above e s path enough = absurd (omega arith)
  populate-walk name names (suc zero) dir above e s (no_ref, empty, named, (p, parent, less, path))
        enough =
      absurd (omega (arith, less, enough))
  populate-walk name [] (suc (suc fuel)) dir above e s
        (no_ref, empty, named, (p, parent, less, leads)) enough =
      let direct =
        populate_name-Walked (suc fuel) e p dir above none name s no_ref named parent less
          (omega (arith, less, enough)) leads in
      let found =
        get_inode-Leads s.entries (suc fuel) p dir above leads (omega (arith, less, enough)) in
      record {
        err = direct.err;
        after = direct.after;
        run = rw (populate, logical_parent, no_ref, parent, found) direct.run;
        ends = direct.ends;
        others = direct.others;
      }
  populate-walk name (m ∷ ms) (suc (suc fuel)) dir above e s
        (no_ref, empty, named, (p, parent, less, path)) enough =
      let earlier =
        populate-walk m ms (suc fuel) dir above p s path (omega (arith, less, enough)) in
      let whole =
        after_parent-Walked (suc fuel) e p name s (populate inodes read_inode (suc fuel) p s)
          (walk inodes number dir above (m ∷ ms)) no_ref named parent less
          (omega (arith, less, enough)) earlier in
      record {
        err = whole.err;
        after = whole.after;
        run =
            rw (populate, logical_parent, no_ref, parent, get_inode, path.0, path.1, parent)
              whole.run;
        ends = whole.ends;
        others = whole.others;
      }

-- ===== src/Fs/Populate/Leads.antt =====
-- What the references between entries of src/fs/filesystem.cpp lead to.
use cantos.Prelude.{ℕ, zero, suc, ◌<◌, ◌≤◌, ◌≡◌, refl, ap, ◌∙◌, List, [], ◌∷◌, none, some, arith}
use cantos.Fs.Populate.{FilePathEntry, logical_parent, get_inode}

-- An entry leads to an inode, below the inodes of a list, the innermost first.
pub data Leads (entries : ℕ → FilePathEntry) : ℕ → ℕ → List ℕ → Type 0 where
  refers :
      (e r dir : ℕ) (above : List ℕ)
      → (entries e).ref ≡ some r
      → r < e
      → Leads entries r dir above
      → Leads entries e dir above
  at_root :
      (e dir : ℕ)
      → (entries e).ref ≡ none
      → (entries e).parent ≡ none
      → (entries e).inode ≡ some dir
      → Leads entries e dir []
  inside :
      (e p dir up : ℕ) (above : List ℕ)
      → (entries e).ref ≡ none
      → (entries e).parent ≡ some p
      → (entries e).inode ≡ some dir
      → p < e
      → Leads entries p up above
      → Leads entries e dir (up ∷ above)

-- The directory above one, with the root above itself.
abbrev pub up_from : ℕ → List ℕ → ℕ
up_from dir [] = dir
up_from dir (up ∷ above) = up

abbrev pub above_up : List ℕ → List ℕ
above_up [] = []
above_up (up ∷ above) = above

pub get_inode-Leads :
    (entries : ℕ → FilePathEntry) (fuel e dir : ℕ) (above : List ℕ)
    → Leads entries e dir above
    → e < fuel
    → get_inode fuel entries e ≡ some (some dir)
unfolding get_inode
get_inode-Leads entries zero e dir above leads enough = absurd (omega arith)
get_inode-Leads entries (suc fuel) e dir above (refers _ r _ _ ref less leads) enough =
    rw (get_inode, ref)
      (get_inode-Leads entries fuel r dir above leads (omega (arith, less, enough)))
get_inode-Leads entries (suc fuel) e dir [] (at_root _ _ no_ref no_parent inode) enough =
    rw (get_inode, no_ref, inode) refl
get_inode-Leads entries (suc fuel) e dir (up ∷ above)
      (inside _ p _ _ _ no_ref parent inode less leads) enough =
    rw (get_inode, no_ref, inode) refl

pub record Upper (entries : ℕ → FilePathEntry) (fuel e dir : ℕ) (above : List ℕ) : Type 0 where
  pub at : ℕ
  pub run : logical_parent fuel entries e ≡ some at
  pub least : at ≤ e
  pub leads : Leads entries at (up_from dir above) (above_up above)

pub logical_parent-Upper :
    (entries : ℕ → FilePathEntry) (fuel e dir : ℕ) (above : List ℕ)
    → Leads entries e dir above
    → e < fuel
    → Upper entries fuel e dir above
unfolding logical_parent
logical_parent-Upper entries zero e dir above leads enough = absurd (omega arith)
logical_parent-Upper entries (suc fuel) e dir above (refers _ r _ _ ref less leads) enough =
    let later = logical_parent-Upper entries fuel r dir above leads (omega (arith, less, enough)) in
    record {
      at = later.at;
      run = rw (logical_parent, ref) later.run;
      least = omega (arith, less, later.least);
      leads = later.leads;
    }
logical_parent-Upper entries (suc fuel) e dir [] (at_root _ _ no_ref no_parent inode) enough =
    record {
      at = e;
      run = rw (logical_parent, no_ref, no_parent) refl;
      least = omega arith;
      leads = at_root e dir no_ref no_parent inode;
    }
logical_parent-Upper entries (suc fuel) e dir (up ∷ above)
      (inside _ p _ _ _ no_ref parent inode less leads) enough =
    record {
      at = p;
      run = rw (logical_parent, no_ref, parent) refl;
      least = omega (arith, less);
      leads = leads;
    }

-- A change of later entries leaves that as it is.
pub Leads-same :
    (entries changed : ℕ → FilePathEntry) (e dir : ℕ) (above : List ℕ)
    → ((i : ℕ) → i ≤ e → changed i ≡ entries i)
    → Leads entries e dir above
    → Leads changed e dir above
Leads-same entries changed e dir above same (refers _ r _ _ ref less leads) =
    refers e r dir above (ap (λ (x : FilePathEntry). x.ref) (same e (omega arith)) ∙ ref) less (
      Leads-same entries changed r dir above (λ i below. same i (omega (arith, below, less))) leads)
Leads-same entries changed e dir [] same (at_root _ _ no_ref no_parent inode) =
    at_root e dir (ap (λ (x : FilePathEntry). x.ref) (same e (omega arith)) ∙ no_ref)
      (ap (λ (x : FilePathEntry). x.parent) (same e (omega arith)) ∙ no_parent)
      (ap (λ (x : FilePathEntry). x.inode) (same e (omega arith)) ∙ inode)
Leads-same entries changed e dir (up ∷ above) same
      (inside _ p _ _ _ no_ref parent inode less leads) =
    inside e p dir up above (ap (λ (x : FilePathEntry). x.ref) (same e (omega arith)) ∙ no_ref)
      (ap (λ (x : FilePathEntry). x.parent) (same e (omega arith)) ∙ parent)
      (ap (λ (x : FilePathEntry). x.inode) (same e (omega arith)) ∙ inode) less
      (Leads-same entries changed p up above (λ i below. same i (omega (arith, below, less))) leads)

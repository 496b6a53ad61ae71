-- ===== src/Fs/Names.antt =====
-- That parse_path of src/fs/filesystem.cpp finds the names between the slashes of a path.
use cantos.Prelude.{
  ℕ, zero, suc, ◌+◌, ◌-◌, ◌<◌, ◌≡◌, refl, sym, ap, ◌∙◌, false, List, [], ◌∷◌, ◌++◌, Option, none,
  some, ltb, ◌==◌, ==→eq, if◌then◌else◌, length, length-append, arith, u32_mod, Option-cases, inl,
  inr, Bool-cases,
}
use mathlib.Core.List.{append-nil, append_assoc}
use cantos.Structures.Utf8.{Utf8, bytes, find_char, substr}
use cantos.Structures.Utf8.Pieces.{first_at, later, find_char_lem, substr_part}
use cantos.Fs.{separator, npos, parsed, add_name, parse_from, parse_path}

-- The parts of a text between its slashes.
abbrev pub onto : ℕ → List (List ℕ) → List (List ℕ)
onto c [] = (c ∷ []) ∷ []
onto c (p ∷ ps) = (c ∷ p) ∷ ps

abbrev pub pieces : List ℕ → List (List ℕ)
pieces [] = [] ∷ []
pieces (c ∷ cs) = if c == separator then [] ∷ pieces cs else onto c (pieces cs)

-- Those that are not empty, in front of others, the last of them first.
abbrev pub collect : List (List ℕ) → List (List ℕ) → List (List ℕ)
collect [] names = names
collect ([] ∷ ps) names = collect ps names
collect ((c ∷ p) ∷ ps) names = collect ps ((c ∷ p) ∷ names)

abbrev pub texts : List Utf8 → List (List ℕ)
texts [] = []
texts (a ∷ rest) = a.text ∷ texts rest

collect_cons :
    (p : List ℕ) (ps names : List (List ℕ))
    → collect (p ∷ ps) names ≡ collect ps (collect (p ∷ []) names)
collect_cons [] ps names = refl
collect_cons (c ∷ p) ps names = refl

texts-add_name :
    (at : ℕ) (p : List ℕ) (parents : List Utf8)
    → texts (add_name (record { string = at; text = p }) parents) ≡ collect (p ∷ []) (texts parents)
texts-add_name at [] parents = refl
texts-add_name at (c ∷ p) parents =
    let some_bytes : (suc (length p) == 0) ≡ false = ground arith in rw some_bytes refl

later-none : (o : Option ℕ) → later o ≡ none → o ≡ none
later-none none e = refl
later-none (some i) e = absurd cc

pieces-none : (cs : List ℕ) → first_at separator cs ≡ none → pieces cs ≡ cs ∷ []
pieces-none [] nothing = refl
pieces-none (c ∷ cs) nothing = elim (Bool-cases (c == separator)) [
  | inl slash ↦ let found : some 0 ≡ none = rw slash at nothing in absurd cc
  | inr other ↦
      let rest : first_at separator cs ≡ none =
        later-none (first_at separator cs) (rw other at nothing) in
      rw (other, pieces-none cs rest) refl
]

-- A text with a slash is its first piece, the slash, and the rest.
pub record Slash (cs : List ℕ) (i : ℕ) : Type 0 where
  pub piece : List ℕ
  pub more : List ℕ
  pub whole : cs ≡ piece ++ (separator ∷ more)
  pub long : length piece ≡ i
  pub rest : pieces cs ≡ piece ∷ pieces more

Slash-later :
    (c i : ℕ) (cs : List ℕ) → (c == separator) ≡ false → Slash cs i → Slash (c ∷ cs) (suc i)
Slash-later c i cs other slash =
    let rest : pieces cs ≡ slash.piece ∷ pieces slash.more = slash.rest in
    record {
      piece = c ∷ slash.piece;
      more = slash.more;
      whole = ap (λ (t : List ℕ). c ∷ t) slash.whole;
      long = ap suc slash.long;
      rest = rw (other, rest) refl;
    }

later-some : (o : Option ℕ) (i : ℕ) → later o ≡ some i → (j : ℕ) × (o ≡ some j) × (i ≡ suc j)
later-some none i e = absurd cc
later-some (some j) i e = let same : suc j ≡ i = cc in (j, refl, sym same)

pieces-some : (cs : List ℕ) (i : ℕ) → first_at separator cs ≡ some i → Slash cs i
pieces-some [] i found = absurd cc
pieces-some (c ∷ cs) i found = elim (Bool-cases (c == separator)) [
  | inl slash ↦
      let found' : some 0 ≡ some i = rw slash at found in
      let zero_i : 0 ≡ i = cc in
      let same : c ≡ separator = ==→eq c separator slash in
      record {
        piece = [];
        more = cs;
        whole = ap (λ (d : ℕ). d ∷ cs) same;
        long = zero_i;
        rest = rw slash refl;
      }
  | inr other ↦
      let (j, rest, next) = later-some (first_at separator cs) i (rw other at found) in
      rw next (Slash-later c j cs other (pieces-some cs j rest))
]

-- What the rest of a path comes to.
record Walked (fuel : ℕ) (buffer : ℕ → ℕ) (path : Utf8) (at : ℕ) (rest : List ℕ)
    (parents : List Utf8) : Type 0 where
  entries : List Utf8
  run : parse_from fuel buffer path at parents ≡ parsed entries
  names : texts entries ≡ collect (pieces rest) (texts parents)

walk_end :
    (fuel : ℕ) (buffer : ℕ → ℕ) (path fname : Utf8) (at : ℕ) (parents : List Utf8)
    → find_char path separator at ≡ some none
    → substr (buffer at) path at npos ≡ some fname
    → parse_from (suc fuel) buffer path at parents ≡ parsed (add_name fname parents)
unfolding parse_from
walk_end fuel buffer path fname at parents nothing copied = rw (nothing, parse_from, copied) refl

walk_on :
    (fuel : ℕ) (buffer : ℕ → ℕ) (path fname : Utf8) (at i len : ℕ) (parents entries : List Utf8)
    → find_char path separator at ≡ some (some i)
    → i - at ≡ len
    → substr (buffer at) path at len ≡ some fname
    → parse_from fuel buffer path (i + 1) (add_name fname parents) ≡ parsed entries
    → parse_from (suc fuel) buffer path at parents ≡ parsed entries
unfolding parse_from
walk_on fuel buffer path fname at i len parents entries found size copied later_run =
    rw (found, parse_from, size, copied) later_run

module _ (buffer : ℕ → ℕ) (path : Utf8) (fits : bytes path < u32_mod) where
  walk_last :
      (fuel : ℕ) (front rest : List ℕ) (parents : List Utf8)
      → path.text ≡ front ++ rest
      → first_at separator rest ≡ none
      → Walked (suc fuel) buffer path (length front) rest parents
  walk_last fuel front rest parents whole nothing =
      let none_found = find_char_lem path front rest separator (λ e. omega (arith, e)) whole in
      let no_slash : find_char path separator (length front) ≡ some none =
        rw nothing at none_found in
      let to_end : path.text ≡ front ++ (rest ++ []) =
        whole ∙ ap (λ (t : List ℕ). front ++ t) (sym (append-nil rest)) in
      let total : bytes path ≡ length front + length rest =
        ap length whole ∙ length-append front rest in
      let asked : (if ltb (length rest + 0) npos then length rest + 0 else npos) ≡ length rest =
        ground (arith, total, fits) in
      let name : Utf8 = record { string = buffer (length front); text = rest } in
      let copied : substr (buffer (length front)) path (length front) npos ≡ some name =
        substr_part (buffer (length front)) npos path front rest [] to_end fits asked in
      record {
        entries = add_name name parents;
        run = walk_end fuel buffer path name (length front) parents no_slash copied;
        names = rw (pieces-none rest nothing) (texts-add_name (buffer (length front)) rest parents);
      }

  walk_past :
      (fuel : ℕ) (front rest : List ℕ) (parents : List Utf8) (i : ℕ)
      → path.text ≡ front ++ rest
      → length rest < suc fuel
      → first_at separator rest ≡ some i
      → Slash rest i
      → ((front more : List ℕ) (parents : List Utf8)
          → path.text ≡ front ++ more
          → length more < fuel
          → Walked fuel buffer path (length front) more parents)
      → Walked (suc fuel) buffer path (length front) rest parents
  walk_past fuel front rest parents i whole enough found slash walk =
      let piece = slash.piece in
      let more = slash.more in
      let at_slash = find_char_lem path front rest separator (λ e. omega (arith, e)) whole in
      let seen : find_char path separator (length front) ≡ some (some (length front + i)) =
        rw found at at_slash in
      let parts : path.text ≡ front ++ (piece ++ (separator ∷ more)) =
        whole ∙ ap (λ (t : List ℕ). front ++ t) slash.whole in
      let front' : List ℕ = front ++ (piece ++ (separator ∷ [])) in
      let parts' : path.text ≡ front' ++ more =
        parts
        ∙ ap (λ (t : List ℕ). front ++ t) (sym (append_assoc piece (separator ∷ []) more))
        ∙ sym (append_assoc front (piece ++ (separator ∷ [])) more) in
      let size : length front + i - length front ≡ length piece = omega (arith, slash.long) in
      let asked : (if ltb (length piece + length (separator ∷ more)) (length piece)
            then length piece + length (separator ∷ more)
            else length piece)
          ≡ length piece =
        ground arith in
      let name : Utf8 = record { string = buffer (length front); text = piece } in
      let copied : substr (buffer (length front)) path (length front) (length piece) ≡ some name =
        substr_part (buffer (length front)) (length piece) path front piece (separator ∷ more) parts
          fits asked in
      let long' : length front' ≡ length front + i + 1 =
        length-append front (piece ++ (separator ∷ []))
        ∙ omega (arith, length-append piece (separator ∷ []), slash.long) in
      let shorter : length more < fuel =
        omega (arith, enough, ap length slash.whole, length-append piece (separator ∷ more)) in
      let onward = walk front' more (add_name name parents) parts' shorter in
      let run : parse_from fuel buffer path (length front + i + 1) (add_name name parents)
          ≡ parsed onward.entries =
        ap (λ (a : ℕ). parse_from fuel buffer path a (add_name name parents)) (sym long')
        ∙ onward.run in
      record {
        entries = onward.entries;
        run =
            walk_on fuel buffer path name (length front) (length front + i) (length piece) parents
              onward.entries seen size copied run;
        names =
            onward.names
            ∙ ap (collect (pieces more)) (texts-add_name (buffer (length front)) piece parents)
            ∙ sym (collect_cons piece (pieces more) (texts parents))
            ∙ ap (λ (ps : List (List ℕ)). collect ps (texts parents)) (sym slash.rest);
      }

  walk_rest :
      (fuel : ℕ) (front rest : List ℕ) (parents : List Utf8)
      → path.text ≡ front ++ rest
      → length rest < fuel
      → Walked fuel buffer path (length front) rest parents
  walk_rest zero front rest parents whole enough = absurd (omega arith)
  walk_rest (suc fuel) front rest parents whole enough =
      elim (Option-cases (first_at separator rest)) [
        | inl nothing ↦ walk_last fuel front rest parents whole nothing
        | inr (i, found) ↦
            walk_past fuel front rest parents i whole enough found (pieces-some rest i found)
              (walk_rest fuel)
      ]

-- parse_path returns, and the names of the entries that it makes are the parts of the path between its
-- slashes, the empty ones left out, in their order down from the base. The path is shorter than
-- 2^32 bytes, and the fuel is more than its length.
pub parse_path-names :
    (fuel : ℕ) (buffer : ℕ → ℕ) (path : Utf8) (base : List Utf8)
    → bytes path < u32_mod
    → bytes path < fuel
    → (entries : List Utf8) × (parse_path fuel buffer path base ≡ parsed entries)
      × (texts entries ≡ collect (pieces path.text) (texts base))
unfolding parse_path
parse_path-names fuel buffer path base fits enough =
    let walked = walk_rest buffer path fits fuel [] path.text base refl enough in
    (walked.entries, walked.run, walked.names)

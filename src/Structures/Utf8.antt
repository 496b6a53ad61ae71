-- ===== src/Structures/Utf8.antt =====
-- The strings of src/structures/utf8.cpp. A Utf8 is the address of its bytes and the byte_count
-- bytes themselves; behind them stands the terminator that every constructor of the code leaves
-- there. A result is `none` where the code reads behind the terminator. No string reaches 2 ^ 32
-- bytes, so the bounds UINT32_MAX of its loops are not reached.
pub mod Compare
pub mod Find
pub mod Copy
pub mod Pieces
mod Tests
use cantos.Prelude.{
  ℕ, zero, suc, ◌+◌, ◌-◌, ◌%◌, Bool, true, false, not, ◌||◌, List, [], ◌∷◌, ◌++◌, Option, none,
  some, ltb, leb, ◌==◌, if◌then◌else◌, length, sub32, u32_mod, ℤ, pos, negsuc,
}

pub record Utf8 : Type 0 where
  pub string : ℕ
  pub text : List ℕ

abbrev pub bytes : Utf8 → ℕ
bytes a = length a.text

-- `string[i]`
pub char_at : List ℕ → ℕ → Option ℕ
char_at [] zero = some 0
char_at [] (suc i) = none
char_at (c ∷ cs) zero = some c
char_at (c ∷ cs) (suc i) = char_at cs i

-- The difference of two signed chars.
pub char_diff : ℕ → ℕ → ℤ
char_diff c d =
    let a = (c + 128) % 256 in
    let b = (d + 128) % 256 in if leb b a then pos (a - b) else negsuc (b - a - 1)

-- One round of the loop of compare: `rest` is what the other rounds find.
pub differ_at : Option ℕ → Option ℕ → Option (Option ℤ) → Option (Option ℤ)
unfolding char_diff
differ_at none d rest = none
differ_at (some c) none rest = none
differ_at (some c) (some d) rest = if c == d then rest else some (some (char_diff c d))

-- `n` rounds from round `k` on: the first difference, if there is one.
pub differ : List ℕ → ℕ → List ℕ → ℕ → ℕ → ℕ → Option (Option ℤ)
unfolding differ_at char_at
differ a i b j zero k = some none
differ a i b j (suc n) k =
    differ_at (char_at a (i + k)) (char_at b (j + k)) (differ a i b j n (suc k))

-- What compare returns behind its loop.
pub compare_length : ℕ → ℕ → ℤ
compare_length len sublen =
    if ltb sublen len then pos 1 else if ltb len sublen then negsuc 0 else pos 0

pub compare_result : ℕ → ℕ → Option (Option ℤ) → Option ℤ
unfolding compare_length
compare_result len sublen none = none
compare_result len sublen (some none) = some (compare_length len sublen)
compare_result len sublen (some (some d)) = some d

-- Utf8::compare with all its arguments.
pub compare_part : Utf8 → ℕ → ℕ → Utf8 → ℕ → ℕ → Option ℤ
unfolding compare_result differ
compare_part a at len b subpos sublen =
    if a.string == b.string
    then some (ℤ.pos 0)
    else compare_result len sublen
        (differ a.text at b.text subpos (if ltb sublen len then sublen else len) 0)

-- Utf8::compare(str)
pub compare : Utf8 → Utf8 → Option ℤ
unfolding compare_part
compare a b = compare_part a 0 (bytes a) b 0 (bytes b)

-- The loop of find(str, pos) for at most `n` rounds; `some none` is npos.
pub find_round : Option ℤ → ℕ → Option (Option ℕ) → Option (Option ℕ)
find_round none at rest = none
find_round (some (pos zero)) at rest = some (some at)
find_round (some (pos (suc d))) at rest = rest
find_round (some (negsuc d)) at rest = rest

pub find_loop : ℕ → Utf8 → Utf8 → ℕ → Option (Option ℕ)
unfolding find_round compare_part
find_loop zero a b at = some none
find_loop (suc n) a b at =
    find_round (compare_part a at (bytes b) b 0 (bytes b)) at (find_loop n a b (suc at))

-- Utf8::find(str, pos), whose bound is a difference of unsigned numbers.
pub find : Utf8 → Utf8 → ℕ → Option (Option ℕ)
unfolding find_loop
find a b at = find_loop (sub32 (bytes a) (bytes b) + 1 - at) a b at

-- Utf8::find(c, pos), which looks at the terminator, too.
pub find_char_loop : ℕ → List ℕ → ℕ → ℕ → Option (Option ℕ)
unfolding char_at
find_char_loop zero a c at = some none
find_char_loop (suc n) a c at =
    let rest = find_char_loop n a c (suc at) in
    elim (char_at a at) [ none ↦ none | some d ↦ if d == c then some (some at) else rest ]

pub find_char : Utf8 → ℕ → ℕ → Option (Option ℕ)
unfolding find_char_loop
find_char a c at = find_char_loop (bytes a + 1 - at) a.text c at

-- The loop that both operators == use, over the rests of the two strings.
pub equal_from : List ℕ → List ℕ → Bool
equal_from [] [] = true
equal_from [] (d ∷ ds) = d == 0
equal_from (c ∷ cs) [] = c == 0
equal_from (c ∷ cs) (d ∷ ds) =
    let rest = equal_from cs ds in if c == d then if c == 0 then true else rest else false

-- operator==(const Utf8 &)
pub equal : Utf8 → Utf8 → Bool
unfolding equal_from
equal a b =
    if a.string == b.string
    then true
    else if not (bytes a == bytes b)
    then false
    else equal_from a.text b.text

-- A loop that copies `n` bytes from `at` on.
pub copy : ℕ → List ℕ → ℕ → Option (List ℕ)
unfolding char_at
copy zero a at = some []
copy (suc n) a at = elim (char_at a at) [
  | none ↦ none
  | some c ↦ elim (copy n a (suc at)) [ none ↦ none | some cs ↦ some (c ∷ cs) ]
]

abbrev pub own : ℕ → Option (List ℕ) → Option Utf8
own buffer none = none
own buffer (some cs) = some (record { string = buffer; text = cs })

-- Utf8::substr; `buffer` is what kmalloc returned.
pub substr : ℕ → Utf8 → ℕ → ℕ → Option Utf8
unfolding copy
substr buffer a at len =
    let room = sub32 (bytes a) at in
    own buffer (copy (if ltb room len then room else len) a.text at)

abbrev pub append_copies : Option (List ℕ) → Option (List ℕ) → Option (List ℕ)
append_copies none ys = none
append_copies (some xs) none = none
append_copies (some xs) (some ys) = some (xs ++ ys)

-- operator+(const Utf8 &). Where the lengths do not fit, the buffer is shorter than what is
-- written to it.
pub concat : ℕ → Utf8 → Utf8 → Option Utf8
unfolding copy
concat buffer a b =
    let top = u32_mod - 2 in
    if ltb (sub32 top (bytes b)) (bytes a) || ltb (sub32 top (bytes a)) (bytes b)
    then none
    else own buffer (append_copies (copy (bytes a) a.text 0) (copy (bytes b) b.text 0))

-- Utf8::chars: `string[p] & 0x80` and `string[p] & 0xc0` of a byte.
pub chars : List ℕ → ℕ
chars [] = 0
chars (c ∷ cs) =
    let rest = chars cs in
    if c == 0
    then 0
    else ((if ltb (c % 256) 0x80 then 1 else 0) + (if ltb (c % 256) 0x40 then 0 else 1)) + rest

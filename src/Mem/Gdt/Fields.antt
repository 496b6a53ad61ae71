-- ===== src/Mem/Gdt/Fields.antt =====
-- That the fields of a descriptor of src/mem/gdt.cpp can be read back.
use Prim.Native.Nat.{bit_or, bit_and}
use cantos.Prelude.{
  ℕ, ◌+◌, ◌*◌, ◌/◌, ◌%◌, ◌^◌, ◌<◌, ◌≡◌, refl, ◌∙◌, arith, ◌==◌, ==→eq, true, bit_or-high,
  bit_or-sum, bit_or-above, bit_and-middle, bit_and-byte, bit_and-word, all_values,
  all_values_sound,
}
use cantos.Mem.Gdt.{high_word, set_entry}

-- The fields of a descriptor, as the processor reads them.
abbrev pub base_field : ℕ → ℕ
base_field v = v / 2 ^ 16 % 2 ^ 24 + v / 2 ^ 56 % 2 ^ 8 * 2 ^ 24

abbrev pub limit_field : ℕ → ℕ
limit_field v = v % 2 ^ 16 + v / 2 ^ 48 % 2 ^ 4 * 2 ^ 16

abbrev pub access_field : ℕ → ℕ
access_field v = v / 2 ^ 40 % 2 ^ 8

abbrev pub flags_field : ℕ → ℕ
flags_field v = v / 2 ^ 52 % 2 ^ 4

-- The bit that every descriptor of code or data has, and the access byte.
access_table : all_values 256 (λ a. bit_or (2 ^ 12) (a * 2 ^ 8) == bit_or 0x10 a * 2 ^ 8) ≡ true
unfolding all_values
access_table = refl

small_table : all_values 256 (λ a. bit_or 0x10 a / 256 == 0) ≡ true
unfolding all_values
small_table = refl

shifted_access : (a : ℕ) → a < 256 → bit_or (2 ^ 12) (a * 2 ^ 8) ≡ bit_or 0x10 a * 2 ^ 8
shifted_access a h = ==→eq _ _ (
    all_values_sound 256 (λ a. bit_or (2 ^ 12) (a * 2 ^ 8) == bit_or 0x10 a * 2 ^ 8) a access_table
      h)

small_access : (a : ℕ) → a < 256 → bit_or 0x10 a < 256
small_access a h =
    let none : bit_or 0x10 a / 256 ≡ 0 =
      ==→eq _ _ (all_values_sound 256 (λ a. bit_or 0x10 a / 256 == 0) a small_table h) in
    omega (arith, none)

-- The first word as a sum of its fields.
high_word_lem :
    (base limit flags access : ℕ)
    → base < 2 ^ 32
    → limit < 2 ^ 20
    → flags < 16
    → access < 256
    → high_word base limit flags access
      ≡ base / 2 ^ 24 * 2 ^ 24
        + flags * 2 ^ 20
        + limit / 2 ^ 16 * 2 ^ 16
        + bit_or 0x10 access * 2 ^ 8
        + base / 2 ^ 16 % 256
unfolding high_word
high_word_lem base limit flags access b l f a =
    let hi : ℕ = limit / 2 ^ 16 in
    let limit' : (0 * 2 ^ 4 + hi) * 2 ^ 16 + limit % 2 ^ 16 ≡ limit = omega arith in
    let one : bit_and limit 0x000f0000 ≡ hi * 2 ^ 16 =
      rw limit' at
        (bit_and-middle 16 4 0 hi (limit % 2 ^ 16) 15 (omega arith) (omega arith) refl) in
    let two : bit_or (hi * 2 ^ 16) (flags * 2 ^ 20) ≡ (flags * 16 + hi) * 2 ^ 16 =
      bit_or-high 20 flags (hi * 2 ^ 16) (omega arith) ∙ omega arith in
    let three : bit_or ((flags * 16 + hi) * 2 ^ 16) (2 ^ 12) ≡ (flags * 16 + hi) * 2 ^ 16 + 2 ^ 12 =
      bit_or-sum 16 (flags * 16 + hi) (2 ^ 12) (omega arith) in
    let four : bit_or ((flags * 16 + hi) * 2 ^ 16 + 2 ^ 12) (access * 2 ^ 8)
        ≡ ((flags * 16 + hi) * 2 ^ 8 + bit_or 0x10 access) * 2 ^ 8 =
      bit_or-above 16 (flags * 16 + hi) (2 ^ 12) (access * 2 ^ 8) (omega arith) (omega arith)
      ∙ omega (arith, shifted_access access a) in
    let byte : bit_and (base / 2 ^ 16) 0xff ≡ base / 2 ^ 16 % 256 = bit_and-byte (base / 2 ^ 16) in
    let five =
      bit_or-sum 8 ((flags * 16 + hi) * 2 ^ 8 + bit_or 0x10 access) (base / 2 ^ 16 % 256)
        (omega arith) in
    let top : ℕ = base / 2 ^ 24 in
    let base' : (0 * 2 ^ 8 + top) * 2 ^ 24 + base % 2 ^ 24 ≡ base = omega arith in
    let six : bit_and base 0xff000000 ≡ top * 2 ^ 24 =
      rw base' at
        (bit_and-middle 24 8 0 top (base % 2 ^ 24) 255 (omega arith) (omega arith) refl) in
    let seven =
      bit_or-high 24 top
        (((flags * 16 + hi) * 2 ^ 8 + bit_or 0x10 access) * 2 ^ 8 + base / 2 ^ 16 % 256)
        (omega (arith, small_access access a)) in
    rw (one, two, three, four, byte, five, six, seven) (omega arith)

set_entry_lem :
    (base limit flags access : ℕ)
    → base < 2 ^ 32
    → limit < 2 ^ 20
    → flags < 16
    → access < 256
    → set_entry base limit flags access
      ≡ high_word base limit flags access * 2 ^ 32 + base % 2 ^ 16 * 2 ^ 16 + limit % 2 ^ 16
unfolding set_entry
set_entry_lem base limit flags access b l f a =
    let high : ℕ = high_word base limit flags access in
    let low : base * 2 ^ 16 % 2 ^ 32 ≡ base % 2 ^ 16 * 2 ^ 16 = omega arith in
    let one : bit_or (high * 2 ^ 32) (base % 2 ^ 16 * 2 ^ 16)
        ≡ (high * 2 ^ 16 + base % 2 ^ 16) * 2 ^ 16 =
      bit_or-sum 32 high (base % 2 ^ 16 * 2 ^ 16) (omega arith) ∙ omega arith in
    let word = bit_and-word limit in
    let two = bit_or-sum 16 (high * 2 ^ 16 + base % 2 ^ 16) (limit % 2 ^ 16) (omega arith) in
    rw (low, one, word, two) (omega arith)

-- The fields of the descriptor that set_entry makes are those that it is given, and the access byte
-- has the bit of a segment of code or data besides. The limit has 20 bits, the flags 4, the access
-- byte 8 and the base 32.
pub set_entry-fields :
    (base limit flags access : ℕ)
    → base < 2 ^ 32
    → limit < 2 ^ 20
    → flags < 16
    → access < 256
    → (base_field (set_entry base limit flags access) ≡ base)
      × (limit_field (set_entry base limit flags access) ≡ limit)
      × (flags_field (set_entry base limit flags access) ≡ flags)
      × (access_field (set_entry base limit flags access) ≡ bit_or 0x10 access)
set_entry-fields base limit flags access b l f a =
    let value = set_entry_lem base limit flags access b l f a in
    let high = high_word_lem base limit flags access b l f a in
    let small = small_access access a in
    (
      omega (arith, value, high, small),
      omega (arith, value, high, small),
      omega (arith, value, high, small),
      omega (arith, value, high, small),
    )

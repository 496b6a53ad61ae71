-- ===== src/Interrupts/Pic/Masks.antt =====
-- What enable and disable of src/int/pic.cpp do to the bits of the masks.
use Prim.Native.Nat.{bit_or, bit_and}
use cantos.Prelude.{
  ℕ, ◌-◌, ◌/◌, ◌%◌, ◌^◌, ◌<◌, ◌≡◌, refl, Bool, true, false, ◌==◌, ltb, if◌then◌else◌, arith,
  all_values, all_values_sound, ==→eq, Bool-cases, inl, inr,
}
use cantos.Interrupts.Pic.{Pic, without_bit, change, enable, disable}

abbrev pub bit : ℕ → ℕ → ℕ
bit value j = value / 2 ^ j % 2

-- The bit of a request in the mask of its controller.
abbrev pub masked : Pic → ℕ → ℕ
masked p irq = if ltb irq 8 then bit p.master irq else bit p.slave (irq - 8)

-- Every byte, with every bit that changes and every bit that is read.
abbrev agrees : (ℕ → ℕ → ℕ) → ℕ → ℕ → ℕ → ℕ → Bool
agrees f x value i j = bit (f value i) j == (if j == i then x else bit value j)

abbrev all_bits : (ℕ → ℕ → ℕ) → ℕ → Bool
all_bits f x =
    all_values 256 (λ value. all_values 8 (λ i. all_values 8 (λ j. agrees f x value i j)))

all_bits_sound :
    (f : ℕ → ℕ → ℕ) (x value i j : ℕ)
    → all_bits f x ≡ true
    → value < 256
    → i < 8
    → j < 8
    → bit (f value i) j ≡ (if j == i then x else bit value j)
all_bits_sound f x value i j all v hi hj =
    let one =
      all_values_sound 256 (λ value. all_values 8 (λ i. all_values 8 (λ j. agrees f x value i j)))
        value all v in
    let two = all_values_sound 8 (λ i. all_values 8 (λ j. agrees f x value i j)) i one hi in
    ==→eq _ _ (all_values_sound 8 (λ j. agrees f x value i j) j two hj)

enable_table : all_bits (λ value i. bit_and value (without_bit i)) 0 ≡ true
unfolding all_values
enable_table = refl

disable_table : all_bits (λ value i. bit_or value (2 ^ i) % 256) 1 ≡ true
unfolding all_values
disable_table = refl

changed :
    (f : ℕ → ℕ → ℕ) (x irq j : ℕ) (p : Pic)
    → all_bits f x ≡ true
    → p.master < 256
    → p.slave < 256
    → irq < 16
    → j < 16
    → masked (change f irq p) j ≡ (if j == irq then x else masked p j)
changed f x irq j p all m s hi hj = elim (Bool-cases (ltb irq 8)) [
  | inl first ↦ elim (Bool-cases (ltb j 8)) [
    | inl low ↦
        let here =
          all_bits_sound f x p.master irq j all m (ground (arith, first)) (ground (arith, low)) in
        rw (first, low) here
    | inr high ↦
        let other : (j == irq) ≡ false = ground (arith, first, high) in rw (first, high, other) refl
  ]
  | inr second ↦ elim (Bool-cases (ltb j 8)) [
    | inl low ↦
        let other : (j == irq) ≡ false = ground (arith, second, low) in rw (second, low, other) refl
    | inr high ↦
        let here =
          all_bits_sound f x p.slave (irq - 8) (j - 8) all s (omega (arith, hi))
            (omega (arith, hj)) in
        let same : (j - 8 == (irq - 8)) ≡ (j == irq) = ground (arith, second, high) in
        rw (second, high) (rw same at here)
  ]
]

-- enable lets a request through and disable masks it, and neither changes the bit of another request.
-- The requests are the 16 of the two controllers, and the masks are bytes.
pub enable-disable-masked :
    (irq j : ℕ) (p : Pic)
    → p.master < 256
    → p.slave < 256
    → irq < 16
    → j < 16
    → (masked (enable irq p) j ≡ (if j == irq then 0 else masked p j))
      × (masked (disable irq p) j ≡ (if j == irq then 1 else masked p j))
unfolding enable disable
enable-disable-masked irq j p m s hi hj = (
  changed (λ value i. bit_and value (without_bit i)) 0 irq j p enable_table m s hi hj,
  changed (λ value i. bit_or value (2 ^ i) % 256) 1 irq j p disable_table m s hi hj,
)

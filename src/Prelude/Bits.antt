-- ===== src/Prelude/Bits.antt =====
-- `bit_or` of a number and one that lies below its lowest digit, and `bit_and` with low digits.
use Prim.Native.Nat.{
  ℕ, zero, suc, ◌+◌, ◌*◌, ◌/◌, ◌%◌, ◌^◌, ◌<◌, ◌≤◌, max, min, digits, bit_or, bit_or-bitwise,
  bit_and, bit_and-bitwise,
}
use mathlib.Core.Path.{◌≡◌, refl, ap, ◌∙◌}
use native.Mathlib.Nat.{le_refl, pow-suc}
use native.Mathlib.Omega.{arith}

-- The digits of two numbers, the higher of each pair.
abbrev pub joined : ℕ → ℕ → ℕ → ℕ
joined = digits (λ (b : ℕ). b) max

pub joined-alone : (n a : ℕ) → a ≤ n → joined n a 0 ≡ a
joined-alone zero a h = omega arith
joined-alone (suc n) zero h = refl
joined-alone (suc n) (suc a) h =
    let rest : joined n (suc a / 2) 0 ≡ suc a / 2 = joined-alone n (suc a / 2) (omega arith) in
    ground (arith, rest)

joined-sum : (k n q a b : ℕ) → a ≡ q * 2 ^ k → a ≤ n → b < 2 ^ k → joined n a b ≡ a + b
joined-sum zero n q a b shape fuel fits =
    let nothing : b ≡ 0 = omega arith in rw nothing (joined-alone n a fuel ∙ omega arith)
joined-sum (suc k) zero q a b shape fuel fits = omega arith
joined-sum (suc k) (suc n) q zero b shape fuel fits = omega arith
joined-sum (suc k) (suc n) q (suc a) b shape fuel fits =
    let double : q * 2 ^ suc k ≡ q * (2 ^ k * 2) = ap (λ (t : ℕ). q * t) (pow-suc 2 k) in
    let half : suc a / 2 ≡ q * 2 ^ k = omega (arith, shape, double) in
    let below : b / 2 < 2 ^ k = omega (arith, fits, pow-suc 2 k) in
    let rest : joined n (suc a / 2) (b / 2) ≡ suc a / 2 + b / 2 =
      joined-sum k n q (suc a / 2) (b / 2) half (omega arith) below in
    let even : suc a % 2 ≡ 0 = omega (arith, shape, double) in ground (arith, rest, even)

joined-high : (k n q a b : ℕ) → b ≡ q * 2 ^ k → a ≤ n → a < 2 ^ k → joined n a b ≡ a + b
joined-high k zero q a b shape fuel fits = omega arith
joined-high k (suc n) q zero b shape fuel fits = omega arith
joined-high zero (suc n) q (suc a) b shape fuel fits = absurd (omega arith)
joined-high (suc k) (suc n) q (suc a) b shape fuel fits =
    let double : q * 2 ^ suc k ≡ q * (2 ^ k * 2) = ap (λ (t : ℕ). q * t) (pow-suc 2 k) in
    let half : b / 2 ≡ q * 2 ^ k = omega (arith, shape, double) in
    let below : suc a / 2 < 2 ^ k = omega (arith, fits, pow-suc 2 k) in
    let rest : joined n (suc a / 2) (b / 2) ≡ suc a / 2 + b / 2 =
      joined-high k n q (suc a / 2) (b / 2) half (omega arith) below in
    let even : b % 2 ≡ 0 = omega (arith, shape, double) in ground (arith, rest, even)

pub bit_or-high : (k q a : ℕ) → a < 2 ^ k → bit_or a (q * 2 ^ k) ≡ a + q * 2 ^ k
bit_or-high k q a fits = simp bit_or-bitwise (joined-high k a q a (q * 2 ^ k) refl (le_refl _) fits)

pub bit_or-sum : (k q b : ℕ) → b < 2 ^ k → bit_or (q * 2 ^ k) b ≡ q * 2 ^ k + b
bit_or-sum k q b fits =
    simp bit_or-bitwise (joined-sum k (q * 2 ^ k) q (q * 2 ^ k) b refl (le_refl _) fits)

-- The digits of two numbers, the lower of each pair.
abbrev pub shared : ℕ → ℕ → ℕ → ℕ
shared = digits (λ (b : ℕ). 0) min

pub shared-nothing : (n a : ℕ) → shared n a 0 ≡ 0
shared-nothing zero a = refl
shared-nothing (suc n) zero = refl
shared-nothing (suc n) (suc a) = ground (arith, shared-nothing n (suc a / 2))

pub shared-low :
    (k n q r a m : ℕ) → a ≡ q * 2 ^ k + r → r < 2 ^ k → suc m ≡ 2 ^ k → a ≤ n → shared n a m ≡ r
shared-low zero n q r a m shape fits mask fuel =
    let nothing : m ≡ 0 = omega arith in rw nothing (shared-nothing n a ∙ omega arith)
shared-low (suc k) zero q r a m shape fits mask fuel = omega arith
shared-low (suc k) (suc n) q r zero m shape fits mask fuel = omega arith
shared-low (suc k) (suc n) q r (suc a) m shape fits mask fuel =
    let double : q * 2 ^ suc k ≡ q * (2 ^ k * 2) = ap (λ (t : ℕ). q * t) (pow-suc 2 k) in
    let half : suc a / 2 ≡ q * 2 ^ k + r / 2 = omega (arith, shape, double) in
    let below : r / 2 < 2 ^ k = omega (arith, fits, pow-suc 2 k) in
    let ones : suc (m / 2) ≡ 2 ^ k = omega (arith, mask, pow-suc 2 k) in
    let rest : shared n (suc a / 2) (m / 2) ≡ r / 2 =
      shared-low k n q (r / 2) (suc a / 2) (m / 2) half below ones (omega arith) in
    let odd : m % 2 ≡ 1 = omega (arith, mask, pow-suc 2 k) in
    let bit : suc a % 2 ≡ r % 2 = omega (arith, shape, double) in ground (arith, rest, odd, bit)

bit_and-low : (k q r m : ℕ) → r < 2 ^ k → suc m ≡ 2 ^ k → bit_and (q * 2 ^ k + r) m ≡ r
bit_and-low k q r m fits mask =
    simp bit_and-bitwise
      (shared-low k (q * 2 ^ k + r) q r (q * 2 ^ k + r) m refl fits mask (le_refl _))

pub bit_and-byte : (a : ℕ) → bit_and a 0xff ≡ a % 0x100
bit_and-byte a =
    let parts : a / 0x100 * 2 ^ 8 + a % 0x100 ≡ a = omega arith in
    rw parts at (bit_and-low 8 (a / 0x100) (a % 0x100) 0xff (omega arith) refl)

pub bit_and-word : (a : ℕ) → bit_and a 0xffff ≡ a % 0x10000
bit_and-word a =
    let parts : a / 0x10000 * 2 ^ 16 + a % 0x10000 ≡ a = omega arith in
    rw parts at (bit_and-low 16 (a / 0x10000) (a % 0x10000) 0xffff (omega arith) refl)

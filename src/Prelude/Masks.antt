-- ===== src/Prelude/Masks.antt =====
-- `bit_and` with digits in the middle of a number, `bit_or` above digits that both have, and tables of
-- the values below a bound.
use Prim.Native.Nat.{
  ℕ, zero, suc, ◌+◌, ◌*◌, ◌/◌, ◌%◌, ◌^◌, ◌<◌, ◌≤◌, bit_or, bit_or-bitwise, bit_and, bit_and-bitwise,
}
use mathlib.Core.Path.{◌≡◌, refl, ap, sym, ◌∙◌}
use mathlib.Core.Bool.{Bool, true, ◌&&◌}
use native.Mathlib.Nat.{le_refl, pow-suc, mul-le-mul_left}
use native.Mathlib.Omega.{arith}
use cantos.Prelude.Bits.{joined, joined-alone, shared, shared-low}

joined-zero : (n b : ℕ) → joined n 0 b ≡ b
joined-zero zero b = refl
joined-zero (suc n) b = refl

joined_fuel : (n m a b : ℕ) → a ≤ n → a ≤ m → joined n a b ≡ joined m a b
joined_fuel zero m zero b h k = sym (joined-zero m b)
joined_fuel zero m (suc a) b h k = absurd (omega arith)
joined_fuel (suc n) m zero b h k = sym (joined-zero m b)
joined_fuel (suc n) zero (suc a) b h k = absurd (omega arith)
joined_fuel (suc n) (suc m) (suc a) b h k =
    ground (arith, joined_fuel n m (suc a / 2) (b / 2) (omega arith) (omega arith))

joined-above :
    (k n q r a b : ℕ)
    → a ≡ q * 2 ^ k + r
    → r < 2 ^ k
    → b < 2 ^ k
    → a ≤ n
    → joined n a b ≡ q * 2 ^ k + joined n r b
joined-above zero n q r a b shape low fits fuel =
    let no_b : b ≡ 0 = omega arith in
    let no_r : r ≡ 0 = omega arith in
    rw (no_b, no_r) (joined-alone n a fuel ∙ omega (arith, shape, no_r, joined-zero n 0))
joined-above (suc k) zero q r a b shape low fits fuel = omega (arith, shape, fuel)
joined-above (suc k) (suc n) q r zero b shape low fits fuel =
    let no_r : r ≡ 0 = omega arith in rw no_r (omega (arith, shape, no_r))
joined-above (suc k) (suc n) q zero (suc a) b shape low fits fuel =
    let double : q * 2 ^ suc k ≡ q * (2 ^ k * 2) = ap (λ (t : ℕ). q * t) (pow-suc 2 k) in
    let half : suc a / 2 ≡ q * 2 ^ k + 0 = omega (arith, shape, double) in
    let below : b / 2 < 2 ^ k = omega (arith, fits, pow-suc 2 k) in
    let none : 0 < 2 ^ k = omega (arith, low, pow-suc 2 k) in
    let rest : joined n (suc a / 2) (b / 2) ≡ q * 2 ^ k + b / 2 =
      joined-above k n q 0 (suc a / 2) (b / 2) half none below (omega arith)
      ∙ ap (λ (t : ℕ). q * 2 ^ k + t) (joined-zero n (b / 2)) in
    let even : suc a % 2 ≡ 0 = omega (arith, shape, double) in ground (arith, rest, even, double)
joined-above (suc k) (suc n) q (suc r) (suc a) b shape low fits fuel =
    let double : q * 2 ^ suc k ≡ q * (2 ^ k * 2) = ap (λ (t : ℕ). q * t) (pow-suc 2 k) in
    let half : suc a / 2 ≡ q * 2 ^ k + suc r / 2 = omega (arith, shape, double) in
    let below : b / 2 < 2 ^ k = omega (arith, fits, pow-suc 2 k) in
    let below_r : suc r / 2 < 2 ^ k = omega (arith, low, pow-suc 2 k) in
    let rest : joined n (suc a / 2) (b / 2) ≡ q * 2 ^ k + joined n (suc r / 2) (b / 2) =
      joined-above k n q (suc r / 2) (suc a / 2) (b / 2) half below_r below (omega arith) in
    let bit : suc a % 2 ≡ suc r % 2 = omega (arith, shape, double) in
    ground (arith, rest, bit, double)

-- Digits that only the one number has stand above those that both have.
pub bit_or-above :
    (k q r b : ℕ) → r < 2 ^ k → b < 2 ^ k → bit_or (q * 2 ^ k + r) b ≡ q * 2 ^ k + bit_or r b
bit_or-above k q r b low fits = simp bit_or-bitwise (
    joined-above k (q * 2 ^ k + r) q r (q * 2 ^ k + r) b refl low fits (le_refl _)
    ∙ ap (λ (t : ℕ). q * 2 ^ k + t) (joined_fuel (q * 2 ^ k + r) r r b (omega arith) (le_refl _)))

one-le-pow : (k : ℕ) → 1 ≤ 2 ^ k
one-le-pow zero = omega arith
one-le-pow (suc k) = omega (arith, one-le-pow k, pow-suc 2 k)

nothing_there : (k p r s : ℕ) → (p + r) * 2 ^ suc k + s ≡ 0 → r ≡ 0
nothing_there k p r s none =
    let some : 1 ≤ 2 ^ suc k = one-le-pow (suc k) in
    let l : (p + r) * 1 ≤ (p + r) * 2 ^ suc k = mul-le-mul_left (p + r) some in
    omega (arith, l, none)

-- `l` digits behind the last `k`, under a mask of ones there.
shared-middle :
    (k l n q r s a m : ℕ)
    → a ≡ (q * 2 ^ l + r) * 2 ^ k + s
    → s < 2 ^ k
    → r < 2 ^ l
    → suc m ≡ 2 ^ l
    → a ≤ n
    → shared n a (m * 2 ^ k) ≡ r * 2 ^ k
shared-middle zero l n q r s a m shape low fits mask fuel =
    let flat : a ≡ q * 2 ^ l + r = omega (arith, shape, low) in
    let bare : m * 1 ≡ m = omega arith in
    rw bare (shared-low l n q r a m flat fits mask fuel ∙ omega arith)
shared-middle (suc k) l zero q r s a m shape low fits mask fuel =
    let no_r : r ≡ 0 = nothing_there k (q * 2 ^ l) r s (omega (arith, shape, fuel)) in
    rw no_r (omega arith)
shared-middle (suc k) l (suc n) q r s zero m shape low fits mask fuel =
    let no_r : r ≡ 0 = nothing_there k (q * 2 ^ l) r s (omega (arith, shape)) in
    rw no_r (omega arith)
shared-middle (suc k) l (suc n) q r s (suc a) m shape low fits mask fuel =
    let whole : ℕ = q * 2 ^ l + r in
    let double : whole * 2 ^ suc k ≡ whole * (2 ^ k * 2) =
      ap (λ (t : ℕ). whole * t) (pow-suc 2 k) in
    let double_m : m * 2 ^ suc k ≡ m * (2 ^ k * 2) = ap (λ (t : ℕ). m * t) (pow-suc 2 k) in
    let double_r : r * 2 ^ suc k ≡ r * (2 ^ k * 2) = ap (λ (t : ℕ). r * t) (pow-suc 2 k) in
    let half : suc a / 2 ≡ whole * 2 ^ k + s / 2 = omega (arith, shape, double) in
    let below : s / 2 < 2 ^ k = omega (arith, low, pow-suc 2 k) in
    let half_m : m * 2 ^ suc k / 2 ≡ m * 2 ^ k = omega (arith, double_m) in
    let even : m * 2 ^ suc k % 2 ≡ 0 = omega (arith, double_m) in
    let rest : shared n (suc a / 2) (m * 2 ^ k) ≡ r * 2 ^ k =
      shared-middle k l n q r (s / 2) (suc a / 2) m half below fits mask (omega arith) in
    rw (half_m, even, rest) (ground (arith, double_r))

-- `bit_and` with `l` ones behind the last `k` digits takes those digits out.
pub bit_and-middle :
    (k l q r s m : ℕ)
    → s < 2 ^ k
    → r < 2 ^ l
    → suc m ≡ 2 ^ l
    → bit_and ((q * 2 ^ l + r) * 2 ^ k + s) (m * 2 ^ k) ≡ r * 2 ^ k
bit_and-middle k l q r s m low fits mask = simp bit_and-bitwise (
    shared-middle k l ((q * 2 ^ l + r) * 2 ^ k + s) q r s ((q * 2 ^ l + r) * 2 ^ k + s) m refl low
      fits mask (le_refl _))

-- A test of every value below a bound.
unfoldable pub all_values : ℕ → (ℕ → Bool) → Bool
all_values zero p = true
all_values (suc n) p = p n && all_values n p

pub all_values_sound : (n : ℕ) (p : ℕ → Bool) (x : ℕ) → all_values n p ≡ true → x < n → p x ≡ true
unfolding all_values
all_values_sound zero p x all lt = absurd (omega arith)
all_values_sound (suc n) p x all lt = ground (arith, all_values_sound n p x)

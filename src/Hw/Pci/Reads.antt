-- ===== src/Hw/Pci/Reads.antt =====
-- The reads of bytes and words of src/hw/pci/pci.cpp out of the registers of 32 bits.
use Prim.Native.Nat.{bit_and}
use cantos.Prelude.{
  ℕ, zero, suc, ◌+◌, ◌*◌, ◌/◌, ◌%◌, ◌^◌, ◌<◌, ◌≡◌, refl, ap, Bool, true, ◌&&◌, some, ◌==◌, ==→eq,
  arith, bit_and-byte, bit_and-word,
}
use cantos.Hw.Pci.{Config, address, get32, get8, get16}

byte_all : ℕ → (ℕ → Bool) → Bool
byte_all zero p = true
byte_all (suc n) p = p n && byte_all n p

byte_all-holds : (n : ℕ) (p : ℕ → Bool) (x : ℕ) → byte_all n p ≡ true → x < n → p x ≡ true
unfolding byte_all
byte_all-holds zero p x h lt = absurd (omega arith)
byte_all-holds (suc n) p x h lt = ground (arith, byte_all-holds n p x)

base_table : byte_all 256 (λ a. bit_and a 0xfc == a / 4 * 4) ≡ true
unfolding byte_all
base_table = refl

base_lem : (a : ℕ) → a < 256 → bit_and a 0xfc ≡ a / 4 * 4
base_lem a h = ==→eq _ _ (byte_all-holds 256 (λ a. bit_and a 0xfc == a / 4 * 4) a base_table h)

-- The register that holds a byte of the configuration of a function.
abbrev pub register : Config → ℕ → ℕ → ℕ → ℕ → ℕ
register config bus slot fn addr = config (address bus slot fn (addr / 4 * 4))

register_read :
    (config : Config) (bus slot fn addr : ℕ)
    → addr < 256
    → get32 config bus slot fn (bit_and addr 0xfc) ≡ some (register config bus slot fn addr)
unfolding get32
register_read config bus slot fn addr h =
    let aligned : (addr / 4 * 4 % 4 == 0) ≡ true = ground arith in
    rw (base_lem addr h, aligned) refl

pub get8_lem :
    (config : Config) (bus slot fn addr : ℕ)
    → addr < 256
    → get8 config bus slot fn addr
      ≡ some (register config bus slot fn addr / 2 ^ (addr % 4 * 8) % 0x100)
unfolding get8
get8_lem config bus slot fn addr h =
    rw (register_read config bus slot fn addr h, bit_and-byte _) refl

pub get16_lem :
    (config : Config) (bus slot fn addr : ℕ)
    → addr < 256
    → get16 config bus slot fn addr
      ≡ some (register config bus slot fn addr / 2 ^ (addr % 4 * 8) % 0x10000)
unfolding get16
get16_lem config bus slot fn addr h =
    rw (register_read config bus slot fn addr h, bit_and-word _) refl

two_bytes :
    (v r : ℕ)
    → r < 3
    → v / 2 ^ (r * 8) % 0x10000 ≡ v / 2 ^ (r * 8) % 0x100 + v / 2 ^ ((r + 1) * 8) % 0x100 * 0x100
two_bytes v zero h = omega arith
two_bytes v (suc zero) h = omega arith
two_bytes v (suc (suc zero)) h = omega arith
two_bytes v (suc (suc (suc r))) h = absurd (omega arith)

-- get16 of a word whose bytes lie in one register of 32 bits gives the two bytes that get8 reads
-- there, the first of them the low one.
pub get16-get8 :
    (config : Config) (bus slot fn addr : ℕ)
    → addr < 255
    → addr % 4 < 3
    → (low : ℕ) × (high : ℕ) × (get8 config bus slot fn addr ≡ some low)
      × (get8 config bus slot fn (addr + 1) ≡ some high)
      × (get16 config bus slot fn addr ≡ some (low + high * 0x100))
get16-get8 config bus slot fn addr h r =
    let same : (addr + 1) / 4 ≡ addr / 4 = omega (arith, r) in
    let next : (addr + 1) % 4 ≡ addr % 4 + 1 = omega (arith, r) in
    (
      register config bus slot fn addr / 2 ^ (addr % 4 * 8) % 0x100,
      register config bus slot fn addr / 2 ^ ((addr % 4 + 1) * 8) % 0x100,
      get8_lem config bus slot fn addr (omega arith),
      rw (same, next) at (get8_lem config bus slot fn (addr + 1) (omega arith)),
      rw (get16_lem config bus slot fn addr (omega arith))
          (ap some (two_bytes (register config bus slot fn addr) (addr % 4) r)),
    )

-- get16 at the last byte of a register gives that byte alone.
pub get16-across :
    (config : Config) (bus slot fn addr : ℕ)
    → addr < 256
    → addr % 4 ≡ 3
    → register config bus slot fn addr < 2 ^ 32
    → get16 config bus slot fn addr ≡ get8 config bus slot fn addr
get16-across config bus slot fn addr h r small =
    rw (get16_lem config bus slot fn addr h, get8_lem config bus slot fn addr h, r)
      (ap some (omega (arith, small)))

-- ===== src/Hw/Pci/Address.antt =====
-- The addresses that src/hw/pci/pci.cpp writes to the address port.
use Prim.Native.Nat.{bit_or}
use cantos.Prelude.{ℕ, ◌+◌, ◌*◌, ◌/◌, ◌%◌, ◌^◌, ◌<◌, ◌≡◌, arith, bit_or-sum, bit_or-high, ◌∙◌}
use cantos.Hw.Pci.{address}

pub address_lem :
    (bus slot func offset : ℕ)
    → bus < 256
    → slot < 32
    → func < 8
    → offset < 256
    → address bus slot func offset
      ≡ bus * 2 ^ 16 + slot * 2 ^ 11 + func * 2 ^ 8 + offset + 0x80000000
unfolding address
address_lem bus slot func offset b s f o =
    let one : bit_or (bus * 2 ^ 16) (slot * 2 ^ 11) ≡ (bus * 32 + slot) * 2 ^ 11 =
      bit_or-sum 16 bus (slot * 2 ^ 11) (omega arith) ∙ omega arith in
    let two : bit_or ((bus * 32 + slot) * 2 ^ 11) (func * 2 ^ 8)
        ≡ ((bus * 32 + slot) * 8 + func) * 2 ^ 8 =
      bit_or-sum 11 (bus * 32 + slot) (func * 2 ^ 8) (omega arith) ∙ omega arith in
    let three = bit_or-sum 8 ((bus * 32 + slot) * 8 + func) offset o in
    let four = bit_or-high 31 1 (((bus * 32 + slot) * 8 + func) * 2 ^ 8 + offset) (omega arith) in
    rw (one, two, three, four) (omega arith)

-- The address of a register of a function names it: its bus, slot, function and offset can be read
-- back from their bits, and the enable bit is set. The four are within their ranges.
pub address-fields :
    (bus slot func offset : ℕ)
    → bus < 256
    → slot < 32
    → func < 8
    → offset < 256
    → (address bus slot func offset / 2 ^ 31 ≡ 1)
      × (address bus slot func offset / 2 ^ 16 % 2 ^ 8 ≡ bus)
      × (address bus slot func offset / 2 ^ 11 % 2 ^ 5 ≡ slot)
      × (address bus slot func offset / 2 ^ 8 % 2 ^ 3 ≡ func)
      × (address bus slot func offset % 2 ^ 8 ≡ offset)
address-fields bus slot func offset b s f o =
    let value = address_lem bus slot func offset b s f o in
    (
      omega (arith, value),
      omega (arith, value),
      omega (arith, value),
      omega (arith, value),
      omega (arith, value),
    )

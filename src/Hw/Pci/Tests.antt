-- ===== src/Hw/Pci/Tests.antt =====
-- Runs of the PCI search on a bus with a bridge, and the theorems there.
use cantos.Prelude.{
  ℕ, ◌/◌, ◌%◌, ◌^◌, ◌<◌, ◌≡◌, ◌≢◌, refl, ap, false, [], ◌∷◌, Option, none, some, ◌==◌,
  if◌then◌else◌, arith,
}
use native.Mathlib.Decide.{ℕ_discrete}
use cantos.Hw.Pci.{
  get8, Config, Device, Found, found, address, read, get8, create_device, read_device_vendor,
  no_device, search_bus,
}
use cantos.Hw.Pci.Address.{address-fields}
use cantos.Hw.Pci.Search.{Ascending, Ends, search_bus-Ends}

-- A card at slot 3 of bus 0, and nothing else.
abbrev one_card : Config
one_card a =
    if a == 0x80001800
    then 0x100e8086
    else if a == 0x80001808
    then 0x02000003
    else if a == 0x8000180c
    then 0
    else no_device

vendor_of : Found → Option ℕ
vendor_of (found (d ∷ e ∷ [])) = some e.vendor
vendor_of r = none

search_card :
    vendor_of (
      search_bus 1 one_card 0 1 (
        record {
          device_id = 0;
          vendor = 0;
          device_class = 0;
          device_subclass = 0;
          prog_if = 0;
          revision_id = 0;
          header = 0;
          bus = 0;
          slot = 0;
          function = 0;
          multifunction = 0;
        }
        ∷ []))
    ≡ some 0x8086
unfolding vendor_of search_bus read_device_vendor address create_device
search_card = refl

read_odd : read one_card 0 3 0 2 ≡ none
unfolding read
read_odd = refl

-- Every slot answers; those of bus 0 are bridges to bus 1.
abbrev bridges : Config
bridges a =
    if a % 2 ^ 8 == 0x08
    then (if a / 2 ^ 16 % 2 ^ 8 == 0 then 0x06040000 else 0)
    else if a % 2 ^ 8 == 0x18
    then 0x100
    else 0

bridges-class :
    (bus slot : ℕ) → bus < 256 → slot < 32 → bus ≢ 0 → bridges (address bus slot 0 8) ≡ 0
bridges-class bus slot b s other =
    let (_, at_bus, _, _, at) = address-fields bus slot 0 8 b s (omega arith) (omega arith) in
    let away : (bus == 0) ≡ false = ground arith in rw (at, at_bus, away) refl

bridges-behind : (bus slot : ℕ) → bus < 256 → slot < 32 → bridges (address bus slot 0 0x18) ≡ 0x100
bridges-behind bus slot b s =
    let (_, _, _, _, at) = address-fields bus slot 0 0x18 b s (omega arith) (omega arith) in
    rw at refl

abbrev class_of : Option Device → ℕ
class_of none = 0
class_of (some d) = d.device_class

bridges-Ascending : Ascending bridges
unfolding create_device get8
bridges-Ascending bus slot j d secondary b s made bridge behind = elim (ℕ_discrete bus 0) [
  | yes root ↦
      let one = rw (bridges-behind bus slot b s) at behind in
      let value : 1 ≡ secondary = cc in (omega (arith, root, value), omega (arith, value))
  | no other ↦
      let class = rw (bridges-class bus slot b s other) at (ap class_of made) in
      absurd (ground (arith, bridge, class))
]

search_bus-Ends_example : Ends bridges (search_bus 256 bridges 0 1 [])
search_bus-Ends_example =
    search_bus-Ends 256 bridges 0 1 [] bridges-Ascending (omega arith) (omega arith) (omega arith)
      tt

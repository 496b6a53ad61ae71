-- ===== src/Hw/Pci.antt =====
-- The PCI bus of src/hw/pci/pci.cpp: configuration reads, devices and the search. The value at the
-- data port, by the address that was written before it, is a parameter.
pub mod Address
pub mod Reads
pub mod Search
mod Tests
use Prim.Native.Nat.{bit_or, bit_and}
use cantos.Prelude.{
  ℕ, zero, suc, ◌+◌, ◌-◌, ◌*◌, ◌/◌, ◌%◌, ◌^◌, Bool, true, false, not, ◌&&◌, List, [], ◌∷◌, ◌++◌,
  Option, none, some, ltb, ◌==◌, if◌then◌else◌,
}

abbrev pub Config : Type 0
Config = ℕ → ℕ

abbrev pub vendor_id : ℕ
vendor_id = 0x00

abbrev pub revision : ℕ
revision = 0x08

abbrev pub header_type : ℕ
header_type = 0x0e

abbrev pub pbr_secondary_bus_num : ℕ
pbr_secondary_bus_num = 0x19

abbrev pub no_device : ℕ
no_device = 0xffffffff

pub address : ℕ → ℕ → ℕ → ℕ → ℕ
address bus slot func offset =
    bit_or (bit_or (bit_or (bit_or (bus * 2 ^ 16) (slot * 2 ^ 11)) (func * 2 ^ 8)) offset)
      0x80000000

-- _read: none stands for panic().
pub read : Config → ℕ → ℕ → ℕ → ℕ → Option ℕ
read config bus slot func offset =
    if offset % 4 == 0 then some (config (address bus slot func offset)) else none

pub read_device_vendor : Config → ℕ → ℕ → ℕ → Option ℕ
unfolding read
read_device_vendor config bus slot func = read config bus slot func 0

-- Device, with the configuration reads of its place.
pub record Device : Type 0 where
  pub device_id : ℕ
  pub vendor : ℕ
  pub device_class : ℕ
  pub device_subclass : ℕ
  pub prog_if : ℕ
  pub revision_id : ℕ
  pub header : ℕ
  pub bus : ℕ
  pub slot : ℕ
  pub function : ℕ
  pub multifunction : ℕ

-- `get32(fn, addr)` of a device at a bus and a slot.
pub get32 : Config → ℕ → ℕ → ℕ → ℕ → Option ℕ
unfolding read
get32 config bus slot fn addr = read config bus slot fn addr

infixl 5 ◌>>=◌
abbrev pub ◌>>=◌ : {A B : Type 0} → Option A → (A → Option B) → Option B
none >>= k = none
some a >>= k = k a

abbrev pub shifted : ℕ → ℕ → Option ℕ → Option ℕ
shifted offset mask none = none
shifted offset mask (some v) = some (bit_and (v / 2 ^ (offset * 8)) mask)

pub get8 : Config → ℕ → ℕ → ℕ → ℕ → Option ℕ
unfolding get32
get8 config bus slot fn addr =
    shifted (addr % 4) 0xff (get32 config bus slot fn (bit_and addr 0xfc))

pub get16 : Config → ℕ → ℕ → ℕ → ℕ → Option ℕ
unfolding get32
get16 config bus slot fn addr =
    shifted (addr % 4) 0xffff (get32 config bus slot fn (bit_and addr 0xfc))

-- What the constructor makes of its three reads.
abbrev pub device_of : ℕ → ℕ → ℕ → ℕ → ℕ → ℕ → Device
device_of bus slot function first second ht = record {
  device_id = first / 2 ^ 16;
  vendor = bit_and first 0xffff;
  device_class = bit_and (second / 2 ^ 24) 0xff;
  device_subclass = bit_and (second / 2 ^ 16) 0xff;
  prog_if = bit_and (second / 2 ^ 8) 0xff;
  revision_id = bit_and second 0xff;
  header = bit_and ht 0x7f;
  bus = bus;
  slot = slot;
  function = function;
  multifunction = bit_and ht 0x80;
}

-- Device::Device.
pub create_device : Config → ℕ → ℕ → ℕ → Option Device
unfolding get32 get8
create_device config bus slot function = do
  first ← get32 config bus slot 0 vendor_id
  second ← get32 config bus slot 0 revision
  ht ← get8 config bus slot 0 header_type
  some (device_of bus slot function first second ht)

abbrev pub is_bridge : Device → Bool
is_bridge d = (d.device_class == 0x06) && (d.device_subclass == 0x04)

-- How a search ends: with the devices found, in panic(), or with its fuel used up.
pub data Found : Type 0 where
  found : List Device → Found
  panicked : Found
  exhausted : Found

abbrev pub and_then : Found → (List Device → Found) → Found
and_then (found ds) k = k ds
and_then panicked k = panicked
and_then exhausted k = exhausted

-- `descend` is the search of a bus behind a bridge.
module _ (config : Config) (descend : ℕ → List Device → Found) (bus : ℕ) where
  abbrev pub search_behind : List Device → Option ℕ → Found
  search_behind ds none = panicked
  search_behind ds (some secondary) = descend secondary ds

  -- A device that is added, and the bus behind it.
  abbrev pub add_device : ℕ → List Device → Option Device → Found
  add_device slot ds none = panicked
  add_device slot ds (some d) =
      if is_bridge d
      then search_behind (ds ++ (d ∷ [])) (get8 config bus slot 0 pbr_secondary_bus_num)
      else found (ds ++ (d ∷ []))

  -- The functions from `j` on, `n` of them; the test is of function 0.
  pub search_functions : ℕ → ℕ → ℕ → List Device → Found
  search_functions slot j zero ds = found ds
  search_functions slot j (suc n) ds =
      and_then
        (elim (read_device_vendor config bus slot 0) [
          | none ↦ panicked
          | some v ↦
              if v == no_device
              then found ds
              else add_device slot ds (create_device config bus slot j)
        ])
        (search_functions slot (j + 1) n)

  pub search_others : ℕ → Option Device → List Device → Found
  unfolding search_functions
  search_others slot none ds = panicked
  search_others slot (some d) ds =
      if d.multifunction == 0 then found ds else search_functions slot 1 7 ds

  pub search_slot : ℕ → List Device → Option ℕ → Found
  unfolding search_others
  search_slot slot ds none = panicked
  search_slot slot ds (some v) =
      if v == no_device
      then found ds
      else and_then (add_device slot ds (create_device config bus slot 0))
          (search_others slot (create_device config bus slot 0))

  pub search_slots : ℕ → ℕ → List Device → Found
  unfolding search_slot
  search_slots slot zero ds = found ds
  search_slots slot (suc n) ds =
      and_then (search_slot slot ds (read_device_vendor config bus slot 0))
        (search_slots (slot + 1) n)

-- _search_bus, with fuel for the bridges on the way.
pub search_bus : ℕ → Config → ℕ → ℕ → List Device → Found
unfolding search_slots
search_bus zero config bus start ds = exhausted
search_bus (suc fuel) config bus start ds =
    search_slots config (λ secondary ds'. search_bus fuel config secondary 0 ds') bus start
      (32 - start) ds

-- The loop of init over the functions of device 0; a function that is there ends it.
pub search_roots : ℕ → Config → ℕ → ℕ → List Device → Found
unfolding search_bus
search_roots fuel config fn zero ds = found ds
search_roots fuel config fn (suc n) ds = elim (read_device_vendor config 0 0 fn) [
  | none ↦ panicked
  | some v ↦
      if not (v == no_device)
      then found ds
      else and_then (search_bus fuel config fn (if fn == 0 then 1 else 0) ds)
          (search_roots fuel config (fn + 1) n)
]

-- The search of init.
pub search_all : ℕ → Config → Found
unfolding search_roots
search_all fuel config = elim (create_device config 0 0 0) [
  | none ↦ panicked
  | some d ↦
      if d.multifunction == 0
      then search_bus fuel config 0 1 (d ∷ [])
      else search_roots fuel config 0 8 (d ∷ [])
]

-- ===== src/Hw/Pci/Search.antt =====
-- That the search of the PCI bus ends, and that it finds only devices that are there.
use cantos.Prelude.{
  ℕ, zero, suc, ◌+◌, ◌-◌, ◌<◌, ◌≤◌, ◌≡◌, refl, true, false, List, [], ◌∷◌, ◌++◌, Option, some, ◌==◌,
  arith, Bool-cases, inl, inr,
}
use cantos.Hw.Pci.{
  Config, Device, Found, found, exhausted, and_then, no_device, pbr_secondary_bus_num,
  read_device_vendor, get8, create_device, is_bridge, add_device, search_functions, search_others,
  search_slot, search_slots, search_bus,
}

-- What is behind a bridge at a bus and a slot.
abbrev pub secondary_of : Config → ℕ → ℕ → Option ℕ
secondary_of config bus slot = get8 config bus slot 0 pbr_secondary_bus_num

-- The bus behind each bridge has a higher number than the bridge's own, and is below 256.
abbrev pub Ascending : Config → Type 0
Ascending config =
    (bus slot j : ℕ) (d : Device) (secondary : ℕ)
    → bus < 256
    → slot < 32
    → create_device config bus slot j ≡ some d
    → is_bridge d ≡ true
    → secondary_of config bus slot ≡ some secondary
    → (bus < secondary) × (secondary < 256)

-- A device at a slot that answers.
pub record Present (config : Config) (d : Device) : Type 0 where
  pub slot : d.slot < 32
  pub vendor : ℕ
  pub answer : read_device_vendor config d.bus d.slot 0 ≡ some vendor
  pub there : (vendor == no_device) ≡ false

abbrev pub AllPresent : Config → List Device → Type 0
AllPresent config [] = Unit {0}
AllPresent config (d ∷ ds) = Present config d × AllPresent config ds

AllPresent-append :
    (config : Config) (ds : List Device) (d : Device)
    → AllPresent config ds
    → Present config d
    → AllPresent config (ds ++ (d ∷ []))
AllPresent-append config [] d all here = (here, tt)
AllPresent-append config (e ∷ ds) d (first, all) here =
    (first, AllPresent-append config ds d all here)

-- A search that ends with devices that are there.
abbrev pub Ends : Config → Found → Type 0
Ends config r = (ds : List Device) × (r ≡ found ds) × AllPresent config ds

then-Ends :
    (config : Config) (r : Found) (k : List Device → Found)
    → Ends config r
    → ((ds : List Device) → AllPresent config ds → Ends config (k ds))
    → Ends config (and_then r k)
then-Ends config r k (ds, ends, all) later = rw ends (later ds all)

-- The reads of the search are at multiples of four, so that none of them panics.
vendor-some :
    (config : Config) (bus slot : ℕ) → (v : ℕ) × (read_device_vendor config bus slot 0 ≡ some v)
unfolding read_device_vendor
vendor-some config bus slot = (_, refl)

secondary-some :
    (config : Config) (bus slot : ℕ) → (v : ℕ) × (secondary_of config bus slot ≡ some v)
unfolding get8
secondary-some config bus slot = (_, refl)

create_device-some :
    (config : Config) (bus slot j : ℕ)
    → (d : Device) × (create_device config bus slot j ≡ some d) × (d.bus ≡ bus) × (d.slot ≡ slot)
unfolding create_device
create_device-some config bus slot j = (_, refl, refl, refl)

module _ (config : Config) (ascending : Ascending config) (descend : ℕ → List Device → Found)
    (bus : ℕ) (on : bus < 256)
    (deeper : (secondary : ℕ) (ds : List Device)
      → bus < secondary
      → secondary < 256
      → AllPresent config ds
      → Ends config (descend secondary ds)) where
  add_device-Ends :
      (slot j : ℕ) (ds : List Device) (v : ℕ)
      → slot < 32
      → read_device_vendor config bus slot 0 ≡ some v
      → (v == no_device) ≡ false
      → AllPresent config ds
      → Ends config (add_device config descend bus slot ds (create_device config bus slot j))
  add_device-Ends slot j ds v inside answers there all =
      let (d, made, at_bus, at_slot) = create_device-some config bus slot j in
      let (secondary, behind) = secondary-some config bus slot in
      let here : Present config d = record {
        slot = rw at_slot inside;
        vendor = v;
        answer = rw (at_bus, at_slot) answers;
        there = there;
      } in
      let more : AllPresent config (ds ++ (d ∷ [])) = AllPresent-append config ds d all here in
      elim (Bool-cases (is_bridge d)) [
        | inl bridge ↦
            let (up, low) = ascending bus slot j d secondary on inside made bridge behind in
            rw (made, bridge, behind) (deeper secondary (ds ++ (d ∷ [])) up low more)
        | inr leaf ↦ rw (made, leaf) (ds ++ (d ∷ []), refl, more)
      ]

  search_functions-Ends :
      (n slot j v : ℕ) (ds : List Device)
      → slot < 32
      → read_device_vendor config bus slot 0 ≡ some v
      → (v == no_device) ≡ false
      → AllPresent config ds
      → Ends config (search_functions config descend bus slot j n ds)
  unfolding search_functions
  search_functions-Ends zero slot j v ds inside answers there all = (ds, refl, all)
  search_functions-Ends (suc n) slot j v ds inside answers there all =
      let (ds1, first, all1) = add_device-Ends slot j ds v inside answers there all in
      rw (answers, there, first)
        (search_functions-Ends n slot (j + 1) v ds1 inside answers there all1)

  search_others-Ends :
      (slot v : ℕ) (ds : List Device)
      → slot < 32
      → read_device_vendor config bus slot 0 ≡ some v
      → (v == no_device) ≡ false
      → AllPresent config ds
      → Ends config (search_others config descend bus slot (create_device config bus slot 0) ds)
  unfolding search_others
  search_others-Ends slot v ds inside answers there all =
      let (d, made, at_bus, at_slot) = create_device-some config bus slot 0 in
      elim (Bool-cases (d.multifunction == 0)) [
        | inl single ↦ rw (made, single) (ds, refl, all)
        | inr several ↦
            rw (made, several) (search_functions-Ends 7 slot 1 v ds inside answers there all)
      ]

  search_slot-Ends :
      (slot : ℕ) (ds : List Device)
      → slot < 32
      → AllPresent config ds
      → Ends config (search_slot config descend bus slot ds (read_device_vendor config bus slot 0))
  unfolding search_slot
  search_slot-Ends slot ds inside all =
      let (v, answers) = vendor-some config bus slot in
      elim (Bool-cases (v == no_device)) [
        | inl nothing ↦ rw (answers, nothing) (ds, refl, all)
        | inr there ↦
            rw (answers, there)
              (then-Ends config
                (add_device config descend bus slot ds (create_device config bus slot 0))
                (search_others config descend bus slot (create_device config bus slot 0))
                (add_device-Ends slot 0 ds v inside answers there all)
                (λ ds1 all1. search_others-Ends slot v ds1 inside answers there all1))
      ]

  search_slots-Ends :
      (n slot : ℕ) (ds : List Device)
      → slot + n ≤ 32
      → AllPresent config ds
      → Ends config (search_slots config descend bus slot n ds)
  unfolding search_slots
  search_slots-Ends zero slot ds inside all = (ds, refl, all)
  search_slots-Ends (suc n) slot ds inside all =
      then-Ends config
        (search_slot config descend bus slot ds (read_device_vendor config bus slot 0))
        (search_slots config descend bus (slot + 1) n) (search_slot-Ends slot ds (omega arith) all)
        (λ ds1 all1. search_slots-Ends n (slot + 1) ds1 (omega arith) all1)

-- The search of a bus ends, with fuel for the buses above it, where the number of the bus behind
-- each bridge is higher than that of the bridge's own bus; a list of devices that are at slots
-- that answer is again one when the search has added its own.
pub search_bus-Ends :
    (fuel : ℕ) (config : Config) (bus start : ℕ) (ds : List Device)
    → Ascending config
    → start ≤ 32
    → 256 ≤ fuel + bus
    → bus < 256
    → AllPresent config ds
    → Ends config (search_bus fuel config bus start ds)
unfolding search_bus
search_bus-Ends zero config bus start ds ascending first enough low all = absurd (omega arith)
search_bus-Ends (suc fuel) config bus start ds ascending first enough low all =
    search_slots-Ends config ascending (λ secondary ds'. search_bus fuel config secondary 0 ds') bus
      low
      (λ secondary ds' up low' all'.
        search_bus-Ends fuel config secondary 0 ds' ascending (omega arith) (omega arith) low' all')
      (32 - start) start ds (omega arith) all

-- Where slot 0 of a bus is a bridge to the bus itself, the search ends for no fuel.
pub search_bus-loops :
    (fuel : ℕ) (config : Config) (bus v : ℕ) (d : Device) (ds : List Device)
    → read_device_vendor config bus 0 0 ≡ some v
    → (v == no_device) ≡ false
    → create_device config bus 0 0 ≡ some d
    → is_bridge d ≡ true
    → secondary_of config bus 0 ≡ some bus
    → search_bus fuel config bus 0 ds ≡ exhausted
unfolding search_bus search_slots search_slot
search_bus-loops zero config bus v d ds answers there made bridge behind = refl
search_bus-loops (suc fuel) config bus v d ds answers there made bridge behind =
    let again =
      search_bus-loops fuel config bus v d (ds ++ (d ∷ [])) answers there made bridge behind in
    rw (answers, there, made, bridge, behind, again) refl

-- ===== src/Hw/Keyboard/Codes.antt =====
-- The scan codes of keys and what the handler of src/hw/ps2keyboard.cpp makes of them.
use Prim.Native.Nat.{bit_or}
use cantos.Prelude.{
  ℕ, ◌+◌, ◌<◌, ◌≡◌, refl, ap, ◌∙◌, Bool, true, false, List, [], ◌∷◌, some, ltb, ◌==◌, if◌then◌else◌,
  arith,
}
use cantos.Hw.Keyboard.{
  Keyboard, Event, key_event, mask_release, mask_extended, pass, is_reply, handle, handle_input,
  handle_key, handle_code, handle_all,
}

-- A key pressed or released, of the extended set or not.
pub record Key : Type 0 where
  pub extended : Bool
  pub released : Bool
  pub code : ℕ

abbrev pub IsKey : Key → Type 0
IsKey key = (0 < key.code) × (key.code < 0x80)

abbrev pub AllKeys : List Key → Type 0
AllKeys [] = Unit {0}
AllKeys (key ∷ keys) = IsKey key × AllKeys keys

-- The bytes that the keyboard sends for a key, and the number that stands for it in the kernel.
abbrev pub scan_codes : Key → List ℕ → List ℕ
scan_codes key rest =
    let bytes = if key.released then 0xf0 ∷ (key.code ∷ rest) else key.code ∷ rest in
    if key.extended then 0xe0 ∷ bytes else bytes

abbrev pub all_scan_codes : List Key → List ℕ
all_scan_codes [] = []
all_scan_codes (key ∷ keys) = scan_codes key (all_scan_codes keys)

abbrev pub masks : Bool → Bool → ℕ
masks extended released =
    (if extended then mask_extended else 0) + (if released then mask_release else 0)

abbrev pub key_number : Key → ℕ
key_number key = bit_or (masks key.extended key.released) key.code

-- What the events are when the keys have been reported, one behind the other.
abbrev pub reported : List Key → List Event → List Event
reported [] events = events
reported (key ∷ keys) events = reported keys (key_event (key_number key) ∷ events)

-- The driver between two keys, with the masks `m` of the one that is being sent.
abbrev pub between : ℕ → ℕ → Bool → List Event → Keyboard
between m reply passed events = record {
  key = m;
  double_code = false;
  last_key = 0;
  last_input = some reply;
  self_test_passed = passed;
  events = events;
}

handle-literal :
    (m c reply : ℕ) (passed : Bool) (events : List Event)
    → 0 < c
    → c < 0x80
    → handle c (between m reply passed events)
      ≡ between 0 reply passed (key_event (bit_or m c) ∷ events)
unfolding handle handle_input handle_key handle_code is_reply
handle-literal m c reply passed events low high =
    let e1 : (c == pass) ≡ false = ground arith in
    let e2 : is_reply c ≡ false = ground arith in
    let e3 : (c == 0x83) ≡ false = ground arith in
    let e4 : (c == 0xe0) ≡ false = ground arith in
    let e5 : (c == 0xe1) ≡ false = ground arith in
    let e6 : (c == 0xf0) ≡ false = ground arith in
    let e7 : ltb c 0x80 ≡ true = ground arith in rw (e1, e2, e3, e4, e5, e6, e7) refl

handle_key_lem :
    (extended released : Bool) (c reply : ℕ) (passed : Bool) (events : List Event) (rest : List ℕ)
    → 0 < c
    → c < 0x80
    → handle_all
        (scan_codes (record { extended = extended; released = released; code = c }) rest)
        (between 0 reply passed events)
      ≡ handle_all rest
          (between 0 reply passed (key_event (bit_or (masks extended released) c) ∷ events))
unfolding handle_all
handle_key_lem true true c reply passed events rest low high =
    ap (handle_all rest) (handle-literal 0x8080 c reply passed events low high)
handle_key_lem true false c reply passed events rest low high =
    ap (handle_all rest) (handle-literal 0x80 c reply passed events low high)
handle_key_lem false true c reply passed events rest low high =
    ap (handle_all rest) (handle-literal 0x8000 c reply passed events low high)
handle_key_lem false false c reply passed events rest low high =
    ap (handle_all rest) (handle-literal 0 c reply passed events low high)

-- The handler reports the keys whose scan codes arrive, each once and in their order, with the
-- masks of extended and released keys, and is between two keys again behind them.
pub handle_all-keys :
    (keys : List Key) (reply : ℕ) (passed : Bool) (events : List Event)
    → AllKeys keys
    → handle_all (all_scan_codes keys) (between 0 reply passed events)
      ≡ between 0 reply passed (reported keys events)
unfolding handle_all
handle_all-keys [] reply passed events valid = refl
handle_all-keys (key ∷ keys) reply passed events (valid, rest) =
    handle_key_lem key.extended key.released key.code reply passed events (all_scan_codes keys)
      valid.0 valid.1
    ∙ handle_all-keys keys reply passed (key_event (key_number key) ∷ events) rest

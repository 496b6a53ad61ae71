-- ===== src/Hw/Keyboard.antt =====
-- The scan codes of src/hw/ps2keyboard.cpp: the interrupt handler as a step on the driver's state,
-- and send, which waits for what the handler leaves in last_input. The byte that port.read
-- returns is an argument; what printk and kwarn are called with is collected in `events`.
pub mod Codes
pub mod Send
mod Tests
use Prim.Native.Nat.{bit_or}
use cantos.Prelude.{
  ℕ, zero, suc, ◌+◌, ◌%◌, ◌^◌, Bool, true, false, ◌&&◌, ◌||◌, List, [], ◌∷◌, ◌++◌, Option, none,
  some, ltb, ◌==◌, if◌then◌else◌,
}

abbrev pub mask_release : ℕ
mask_release = 0x8000

abbrev pub mask_extended : ℕ
mask_extended = 0x80

abbrev pub err_1 : ℕ
err_1 = 0x00

abbrev pub pass : ℕ
pass = 0xaa

abbrev pub echo : ℕ
echo = 0xee

abbrev pub ack : ℕ
ack = 0xfa

abbrev pub st_fail_1 : ℕ
st_fail_1 = 0xfc

abbrev pub st_fail_2 : ℕ
st_fail_2 = 0xfd

abbrev pub resend : ℕ
resend = 0xfe

abbrev pub err_2 : ℕ
err_2 = 0xff

pub data Event : Type 0 where
  key_event : ℕ → Event
  unknown_pair : ℕ → ℕ → Event
  unknown_code : ℕ → Event

-- Ps2KeyboardDriver; `last_input` is none for -1, and `events` has the last one first.
pub record Keyboard : Type 0 where
  pub key : ℕ
  pub double_code : Bool
  pub last_key : ℕ
  pub last_input : Option ℕ
  pub self_test_passed : Bool
  pub events : List Event

-- `key |= input`, the print, and the reset.
abbrev pub emit : ℕ → Keyboard → Keyboard
emit input k = record k {
  events = key_event (bit_or k.key input) ∷ k.events;
  key = 0;
  last_key = 0;
}

-- The part for literal key codes.
pub handle_code : ℕ → Keyboard → Keyboard
handle_code input k =
    if k.double_code
    then record k { last_key = input; double_code = false }
    else if k.last_key == 0
    then emit input k
    else if k.last_key == 0x14 && input == 0x77
    then emit 0x0f k
    else record k { events = unknown_pair k.last_key input ∷ k.events; key = 0; last_key = 0 }

-- The part behind the tests for replies, for an input that is not 0x83 any more.
pub handle_key : ℕ → Keyboard → Keyboard
unfolding handle_code
handle_key input k =
    if input == 0xe0
    then record k { key = bit_or k.key mask_extended }
    else if input == 0xe1
    then record k { double_code = true }
    else if input == 0xf0
    then record k { key = bit_or k.key mask_release }
    else if ltb input 0x80
    then handle_code input k
    else record k { events = unknown_code input ∷ k.events }

-- Replies that are passed over.
pub is_reply : ℕ → Bool
is_reply input =
    ((input == err_1) || (input == err_2))
    || (((input == echo) || ((input == ack) || (input == resend)))
        || ((input == st_fail_1) || (input == st_fail_2)))

-- The part behind the test for PASS.
pub handle_input : ℕ → Keyboard → Option ℕ → Keyboard
unfolding handle_key is_reply
handle_input input k none = record k { last_input = some input }
handle_input input k (some last) =
    if is_reply input then k else handle_key (if input == 0x83 then 0x02 else input) k

pub handle : ℕ → Keyboard → Keyboard
unfolding handle_input
handle input k =
    if input == pass
    then record k { self_test_passed = true }
    else handle_input input k k.last_input

pub handle_all : List ℕ → Keyboard → Keyboard
unfolding handle
handle_all [] k = k
handle_all (b ∷ bs) k = handle_all bs (handle b k)

-- The loops of send, while the bytes of the list arrive one at a time: what send returns, or none
-- if it has not returned when they are used up. Each round of the outer loop writes again.
pub send_loop : List ℕ → Keyboard → Option ℕ → Option (ℕ × Keyboard)
unfolding handle
send_loop [] k none = none
send_loop [] k (some r) = if r == resend then none else some (r, k)
send_loop (b ∷ bs) k none = let k' = handle b k in send_loop bs k' k'.last_input
send_loop (b ∷ bs) k (some r) =
    let k' = handle b k in
    let rest = send_loop bs k' k'.last_input in if r == resend then rest else some (r, k)

-- Ps2KeyboardDriver::send of one byte.
pub send : List ℕ → Keyboard → Option (ℕ × Keyboard)
unfolding send_loop
send bytes k = send_loop bytes (record k { last_input = none }) none

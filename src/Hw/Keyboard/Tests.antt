-- ===== src/Hw/Keyboard/Tests.antt =====
-- Runs of src/hw/ps2keyboard.cpp, and its theorems there.
use cantos.Prelude.{◌≡◌, refl, true, false, [], ◌∷◌, none, arith}
use cantos.Hw.Keyboard.{key_event, handle_all, send, resend, ack}
use cantos.Hw.Keyboard.Codes.{Key, all_scan_codes, between, handle_all-keys}
use cantos.Hw.Keyboard.Send.{send_lem}

abbrev press : Key
press = record { extended = false; released = false; code = 0x1c }

abbrev release : Key
release = record { extended = true; released = true; code = 0x75 }

-- The pause key, pressed and released, and F7.
pause :
    (handle_all
      (0xe1 ∷ 0x14 ∷ 0x77 ∷ 0xe1 ∷ 0xf0 ∷ 0x14 ∷ 0xf0 ∷ 0x77 ∷ 0x83 ∷ [])
      (between 0 ack true [])).events
    ≡ key_event 0x02 ∷ key_event 0x800f ∷ key_event 0x0f ∷ []
unfolding handle_all
pause = refl

handle_all-keys_example :
    handle_all (all_scan_codes (press ∷ release ∷ [])) (between 0 ack true [])
    ≡ between 0 ack true (key_event 0x80f5 ∷ key_event 0x1c ∷ [])
handle_all-keys_example =
    handle_all-keys (press ∷ release ∷ []) ack true []
      ((omega arith, omega arith), ((omega arith, omega arith), tt))

send_lem_example : send (resend ∷ ack ∷ ack ∷ []) (between 0 ack true []) ≡ none
send_lem_example = send_lem resend (ack ∷ ack ∷ []) (between 0 ack true []) (omega arith)

-- ===== src/Hw/Ps2/Tests.antt =====
-- Runs of src/hw/ps2.cpp with a keyboard at the port, and the theorems there.
use cantos.Prelude.{ℕ, zero, suc, ◌≡◌, ◌≢◌, refl, true, false, [], ◌∷◌, arith}
use cantos.Hw.Ps2.{
  status_read, data_read, Trace, Hardware, Outcome, done, Port, read, init_port, resend_byte,
  type_mf2_keyboard,
}
use cantos.Hw.Ps2.Timeout.{ReadResult, read-result, Settles}
use cantos.Hw.Ps2.Acknowledge.{Patient}
use cantos.Hw.Ps2.Identify.{Returns, init_port-Returns}

-- The bytes that have been read from the data port.
abbrev reads : Trace → ℕ
reads [] = 0
reads (data_read ∷ t) = suc (reads t)
reads (a ∷ t) = reads t

-- Two acknowledgements and the two bytes of a keyboard.
abbrev answer : ℕ → ℕ
answer zero = 0xfa
answer (suc zero) = 0xfa
answer (suc (suc zero)) = 0xab
answer (suc (suc (suc zero))) = 0x83
answer (suc (suc (suc (suc n)))) = 0

abbrev keyboard : Hardware
keyboard (status_read ∷ t) = answer (reads t)
keyboard t = 0

abbrev port : Port
port = record { enabled = true; second = false; timed_out = false; type = 0; driver = false }

type_after : Outcome Port → ℕ
type_after (done p t) = p.type
type_after r = 0

init_keyboard : type_after (init_port keyboard 1 0xffff port []) ≡ type_mf2_keyboard
unfolding type_after init_port
init_keyboard = refl

answer-patient : (n : ℕ) → answer n ≢ resend_byte
answer-patient zero e = omega (arith, e)
answer-patient (suc zero) e = omega (arith, e)
answer-patient (suc (suc zero)) e = omega (arith, e)
answer-patient (suc (suc (suc zero))) e = omega (arith, e)
answer-patient (suc (suc (suc (suc n)))) e = omega (arith, e)

keyboard-Patient : Patient keyboard 0
keyboard-Patient t h = answer-patient (reads t)

keyboard-Settles : Settles keyboard 2
keyboard-Settles t = (1, omega arith, refl)

read-result_example :
    ReadResult keyboard 3 (record port { timed_out = false }) [] (read keyboard 3 3 port [])
read-result_example = read-result keyboard 3 3 port [] (omega arith) (omega arith) (omega arith)

init_port-Returns_example : Returns (init_port keyboard 1 0xffff port [])
init_port-Returns_example =
    init_port-Returns keyboard 0 2 1 0xffff port [] keyboard-Settles (omega arith) keyboard-Patient
      (omega arith) (omega arith)

-- ===== src/Hw/Ps2/Acknowledge.antt =====
-- The loop of Ps2Port::write_ack of src/hw/ps2.cpp: when it ends, and when it does not.
use cantos.Prelude.{
  ℕ, zero, suc, ◌+◌, ◌<◌, ◌≤◌, ◌≡◌, ◌≢◌, refl, inl, inr, Bool, true, false, ◌||◌, [], ◌∷◌, ◌==◌,
  ==→eq, arith, Bool-cases, leb,
}
use cantos.Hw.Ps2.{
  status_read, data_read, data_written, command_written, io_waited, irq_enabled, interrupt_ended,
  Trace, Hardware, done, exhausted, Port, is_busy, read, write, write_ack, resend_byte, ack_byte,
  com_next2in,
}
use cantos.Hw.Ps2.Timeout.{after, read-result}

-- The bytes that have been written to the data port.
abbrev pub writes : Trace → ℕ
writes [] = 0
writes (data_written v ∷ t) = suc (writes t)
writes (status_read ∷ t) = writes t
writes (data_read ∷ t) = writes t
writes (command_written v ∷ t) = writes t
writes (io_waited ∷ t) = writes t
writes (irq_enabled v ∷ t) = writes t
writes (interrupt_ended ∷ t) = writes t

-- No byte is answered by RESEND once `k` of them have been written.
abbrev pub Patient : Hardware → ℕ → Type 0
Patient hardware k = (t : Trace) → k ≤ writes t → hardware (status_read ∷ t) ≢ resend_byte

writes-after : (i : ℕ) (t : Trace) → writes (after i t) ≡ writes t
writes-after zero t = refl
writes-after (suc i) t = writes-after i (io_waited ∷ status_read ∷ t)

-- A read ends, and what it gives is a RESEND only before `k` bytes have been written.
pub read-ends :
    (hardware : Hardware) (k fuel : ℕ) (p : Port) (t : Trace)
    → Patient hardware k
    → 0xffff ≤ fuel
    → (v : ℕ) × (b : Bool) × (t' : Trace) × (read hardware fuel 0xffff p t
        ≡ done (v, record p { timed_out = b }) t')
      × (writes t' ≡ writes t)
      × (v ≡ resend_byte → writes t < k)
read-ends hardware k fuel p t patient enough =
    elim (read-result hardware fuel 0xffff p t (omega arith) (omega arith) enough) [
      | inl (busy, ends) ↦
          (0xff, true, after 0xffff t, ends, writes-after 0xffff t, λ e. absurd (omega (arith, e)))
      | inr (i, inside, ready, ends) ↦
          let same : writes (after i t) ≡ writes t = writes-after i t in
          (
            hardware (status_read ∷ after i t),
            false,
            data_read ∷ status_read ∷ after i t,
            ends,
            same,
            λ e. elim (Bool-cases (leb k (writes t))) [
              | inl late ↦ absurd (patient (after i t) (ground (arith, late, same)) e)
              | inr early ↦ ground (arith, early)
            ],
          )
    ]

-- Ps2Port::write writes one byte.
write-done :
    (hardware : Hardware) (dat : ℕ) (p : Port) (t : Trace)
    → (t' : Trace) × (write hardware dat p t ≡ done tt t') × (writes t' ≡ suc (writes t))
unfolding write
write-done hardware dat p t = elim (Bool-cases p.second) [
  | inl second ↦ (data_written dat ∷ command_written com_next2in ∷ t, rw second refl, refl)
  | inr first ↦ (data_written dat ∷ t, rw first refl, refl)
]

-- Ps2Port::write_ack returns where the device answers no byte by RESEND any more once k bytes
-- have been written, and there are rounds for the bytes that are missing to k. Of the port it
-- changes timed_out alone.
pub write_ack-done :
    (hardware : Hardware) (k rounds fuel dat : ℕ) (p : Port) (t : Trace)
    → Patient hardware k
    → 0xffff ≤ fuel
    → 0 < rounds
    → k ≤ rounds + writes t
    → (b : Bool) × (t' : Trace) × (write_ack hardware rounds fuel dat p t
        ≡ done (record p { timed_out = b }) t')
      × (writes t ≤ writes t')
unfolding write_ack
write_ack-done hardware k zero fuel dat p t patient enough some_rounds left = absurd (omega arith)
write_ack-done hardware k (suc rounds) fuel dat p t patient enough some_rounds left =
    let (t1, written, one) = write-done hardware dat p t in
    let (v, b, t2, run, same, early) = read-ends hardware k fuel p t1 patient enough in
    elim (Bool-cases ((v == ack_byte) || b)) [
      | inl over ↦ (b, t2, rw (written, run, over) refl, omega (arith, one, same))
      | inr open' ↦ elim (Bool-cases (v == resend_byte)) [
        | inl again ↦
            let soon : writes t1 < k = early (==→eq v resend_byte again) in
            let (b', t3, later, more) =
              write_ack-done hardware k rounds fuel dat (record p { timed_out = b }) t2 patient
                enough (omega (arith, soon, one)) (omega (arith, one, same)) in
            (b', t3, rw (written, run, open', again) later, omega (arith, one, same, more))
        | inr answer ↦ (b, t2, rw (written, run, open', answer) refl, omega (arith, one, same))
      ]
    ]

resent :
    (hardware : Hardware) (fuel dat : ℕ) (p : Port) (t : Trace)
    → ((t : Trace) → hardware (status_read ∷ t) ≡ resend_byte)
    → ((v : ℕ) (t : Trace) → is_busy (hardware (data_written v ∷ t)) ≡ false)
    → (t1 : Trace) × (t2 : Trace) × (write hardware dat p t ≡ done tt t1)
      × (read hardware (suc fuel) 0xffff p t1
          ≡ done (resend_byte, record p { timed_out = false }) t2)
unfolding write read
resent hardware fuel dat p t always ready = elim (Bool-cases p.second) [
  | inl second ↦
      let t1 : Trace = data_written dat ∷ command_written com_next2in ∷ t in
      (t1, data_read ∷ status_read ∷ t1, rw second refl, rw (ready, always) refl)
  | inr first ↦
      let t1 : Trace = data_written dat ∷ t in
      (t1, data_read ∷ status_read ∷ t1, rw first refl, rw (ready, always) refl)
]

-- Where the device answers each byte by RESEND, Ps2Port::write_ack ends for no number of rounds. The
-- controller is ready right behind each byte.
pub write_ack-loops :
    (hardware : Hardware) (rounds fuel dat : ℕ) (p : Port) (t : Trace)
    → ((t : Trace) → hardware (status_read ∷ t) ≡ resend_byte)
    → ((v : ℕ) (t : Trace) → is_busy (hardware (data_written v ∷ t)) ≡ false)
    → write_ack hardware rounds (suc fuel) dat p t ≡ exhausted
unfolding write_ack
write_ack-loops hardware zero fuel dat p t always ready = refl
write_ack-loops hardware (suc rounds) fuel dat p t always ready =
    let (t1, t2, written, run) = resent hardware fuel dat p t always ready in
    rw (written, run)
      (write_ack-loops hardware rounds fuel dat (record p { timed_out = false }) t2 always ready)

-- ===== src/Hw/Ps2/Timeout.antt =====
-- The loops of src/hw/ps2.cpp that wait for the controller: the one with a timeout and the one without.
use cantos.Prelude.{
  ℕ, zero, suc, ◌<◌, ◌≤◌, ◌≡◌, refl, ◌⊎◌, inl, inr, true, false, ◌∷◌, ◌==◌, arith, Bool-cases,
  sub32, u32_mod,
}
use cantos.Hw.Ps2.{
  status_read, data_read, io_waited, Trace, Hardware, Outcome, done, Port, is_busy, read_loop, read,
  wait_ready,
}

-- The trace behind `i` rounds in which the controller is busy.
abbrev pub after : ℕ → Trace → Trace
after zero t = t
after (suc i) t = after i (io_waited ∷ status_read ∷ t)

-- The controller is busy in the first `n` rounds.
abbrev pub BusyFor : Hardware → ℕ → Trace → Type 0
BusyFor hardware n t = (i : ℕ) → i < n → is_busy (hardware (after i t)) ≡ true

-- The controller is ready in round `i` for the first time.
abbrev pub ReadyAt : Hardware → ℕ → Trace → Type 0
ReadyAt hardware i t = BusyFor hardware i t × (is_busy (hardware (after i t)) ≡ false)

BusyFor-suc :
    (hardware : Hardware) (n : ℕ) (t : Trace)
    → is_busy (hardware t) ≡ true
    → BusyFor hardware n (io_waited ∷ status_read ∷ t)
    → BusyFor hardware (suc n) t
BusyFor-suc hardware n t now later zero h = now
BusyFor-suc hardware n t now later (suc i) h = later i (omega arith)

-- What a read comes to: a timeout with 0xff, or the byte that is there in the first ready round.
abbrev pub ReadResult : Hardware → ℕ → Port → Trace → Outcome (ℕ × Port) → Type 0
ReadResult hardware n p t r =
    (BusyFor hardware n t × (r ≡ done (0xff, record p { timed_out = true }) (after n t)))
    ⊎ ((i : ℕ) × (i < n)
        × ReadyAt hardware i t
        × (r
            ≡ done (hardware (status_read ∷ after i t), record p { timed_out = p.timed_out })
                (data_read ∷ status_read ∷ after i t)))

read_loop-result :
    (hardware : Hardware) (fuel n : ℕ) (p : Port) (t : Trace)
    → 0 < n
    → n < u32_mod
    → n ≤ fuel
    → ReadResult hardware n p t (read_loop hardware fuel n p t)
unfolding read_loop
read_loop-result hardware zero n p t some_rounds small enough = absurd (omega arith)
read_loop-result hardware (suc fuel) zero p t some_rounds small enough = absurd (omega arith)
read_loop-result hardware (suc fuel) (suc zero) p t some_rounds small enough =
    elim (Bool-cases (is_busy (hardware t))) [
      | inr ready ↦ inr (0, omega arith, ((λ i h. absurd (omega arith)), ready), rw ready refl)
      | inl busy ↦ inl (BusyFor-suc hardware 0 t busy (λ i h. absurd (omega arith)), rw busy refl)
    ]
read_loop-result hardware (suc fuel) (suc (suc n)) p t some_rounds small enough =
    elim (Bool-cases (is_busy (hardware t))) [
      | inr ready ↦ inr (0, omega arith, ((λ i h. absurd (omega arith)), ready), rw ready refl)
      | inl busy ↦
          let left : sub32 (suc (suc n)) 1 ≡ suc n = omega arith in
          let more : (suc n == 0) ≡ false = ground arith in
          elim (read_loop-result hardware fuel (suc n) p (io_waited ∷ status_read ∷ t) (omega arith)
            (omega arith) (omega arith)) [
              | inl (all_busy, ends) ↦
                  inl (BusyFor-suc hardware (suc n) t busy all_busy, rw (busy, left, more) ends)
              | inr (i, inside, (busy', ready), ends) ↦ inr (
                suc i,
                omega (arith, inside),
                (BusyFor-suc hardware i t busy busy', ready),
                rw (busy, left, more) ends,
              )
            ]
    ]

-- Ps2Port::read with a timeout that is not 0 returns after at most that many rounds: with 0xff and
-- timed_out set where the controller is busy in all of them, and else with the byte that is there in
-- the first round in which it is not, and timed_out reset. The timeout is a number of 32 bits.
pub read-result :
    (hardware : Hardware) (fuel timeout : ℕ) (p : Port) (t : Trace)
    → 0 < timeout
    → timeout < u32_mod
    → timeout ≤ fuel
    → ReadResult hardware timeout
        (record p { timed_out = false })
        t
        (read hardware fuel timeout p t)
unfolding read
read-result hardware fuel timeout p t some_rounds small enough =
    read_loop-result hardware fuel timeout (record p { timed_out = false }) t some_rounds small
      enough

-- The controller is ready within `n` rounds, whatever went before.
abbrev pub Settles : Hardware → ℕ → Type 0
Settles hardware n = (t : Trace) → (i : ℕ) × (i < n) × (is_busy (hardware (after i t)) ≡ false)

wait_ready-from :
    (hardware : Hardware) (i fuel : ℕ) (t : Trace)
    → i < fuel
    → is_busy (hardware (after i t)) ≡ false
    → (t' : Trace) × (wait_ready hardware fuel t ≡ done tt t')
unfolding wait_ready
wait_ready-from hardware i zero t inside ready = absurd (omega arith)
wait_ready-from hardware zero (suc fuel) t inside ready = (status_read ∷ t, rw ready refl)
wait_ready-from hardware (suc i) (suc fuel) t inside ready =
    elim (Bool-cases (is_busy (hardware t))) [
      | inr now ↦ (status_read ∷ t, rw now refl)
      | inl busy ↦
          let (t', ends) =
            wait_ready-from hardware i fuel (io_waited ∷ status_read ∷ t) (omega arith) ready in
          (t', rw busy ends)
    ]

pub wait_ready-done :
    (hardware : Hardware) (n fuel : ℕ) (t : Trace)
    → Settles hardware n
    → n ≤ fuel
    → (t' : Trace) × (wait_ready hardware fuel t ≡ done tt t')
wait_ready-done hardware n fuel t settles enough =
    let (i, inside, ready) = settles t in
    wait_ready-from hardware i fuel t (omega (arith, inside)) ready

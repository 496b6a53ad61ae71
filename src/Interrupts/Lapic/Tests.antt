-- ===== src/Interrupts/Lapic/Tests.antt =====
-- Runs of the timer of src/int/lapic.cpp, and the theorem there.
use cantos.Prelude.{◌≡◌, refl, false, [], ◌∷◌, arith}
use cantos.Interrupts.Lapic.{Lapic, timer, ipi, icr_a, icr_b}
use cantos.Interrupts.Lapic.Calibration.{ticks, Calibrated, ticks-Calibrated}

abbrev at_start : Lapic
at_start = record {
  stage = 0;
  deadline = 5;
  calibration_ticks = 0;
  ticks_per_sec = 0;
  calibrated = λ i. false;
  writes = [];
  yields = 0;
}

-- The command interrupt to processor 2.
command_sent : (ipi 0x28 2 at_start).writes ≡ (icr_a, 0x28) ∷ (icr_b, 0x2000000) ∷ []
unfolding ipi
command_sent = refl

-- The second processor waits until the first one has measured the rate.
other_waits : (timer 1 9 at_start).yields ≡ 0
unfolding timer
other_waits = refl

ticks-Calibrated_example : Calibrated (ticks (4 ∷ 5 ∷ 6 ∷ 40 ∷ 89 ∷ 90 ∷ []) at_start) 3
ticks-Calibrated_example =
    ticks-Calibrated at_start (4 ∷ 5 ∷ []) (40 ∷ 89 ∷ []) 6 90 refl (omega arith) (omega arith)
      (omega arith) (omega arith) (omega arith) (omega arith)

-- ===== src/Interrupts/Lapic/Calibration.antt =====
-- What the interrupts of the timer of src/int/lapic.cpp measure.
use cantos.Prelude.{
  ℕ, ◌+◌, ◌*◌, ◌<◌, ◌≤◌, ◌≡◌, refl, ap, ◌∙◌, true, false, List, [], ◌∷◌, ◌++◌, ◌==◌, ltb, add32,
  mul32, arith, length, u32_mod,
}
use cantos.Interrupts.Lapic.{
  Lapic, timer, per_second, cal_init, cal_div, eoi_register, timer_initial,
}

-- The interrupts of processor 0 at the given times.
abbrev pub ticks : List ℕ → Lapic → Lapic
ticks [] l = l
ticks (t ∷ ts) l = ticks ts (timer 0 t l)

abbrev pub AllUpTo : ℕ → List ℕ → Type 0
AllUpTo d [] = Unit {0}
AllUpTo d (t ∷ ts) = (t ≤ d) × AllUpTo d ts

abbrev pub AllFields : Lapic → ℕ → ℕ → ℕ → Type 0
AllFields l stage deadline n =
    (l.stage ≡ stage) × (l.deadline ≡ deadline) × (l.calibration_ticks ≡ n)

waits : (t : ℕ) (l : Lapic) (d n : ℕ) → AllFields l 0 d n → t ≤ d → AllFields (timer 0 t l) 0 d n
unfolding timer
waits t l d n (stage, deadline, count) before =
    let first : (l.stage == 0) ≡ true = ground arith in
    let early : ltb l.deadline t ≡ false = ground (arith, deadline, before) in
    rw (first, early) (stage, deadline, count)

starts :
    (t : ℕ) (l : Lapic) (d n : ℕ)
    → AllFields l 0 d n
    → d < t
    → t + per_second + 1 < u32_mod
    → AllFields (timer 0 t l) 1 (t + per_second + 1) 1
unfolding timer
starts t l d n (stage, deadline, count) after small =
    let first : (l.stage == 0) ≡ true = ground arith in
    let late : ltb l.deadline t ≡ true = ground (arith, deadline, after) in
    rw (first, late) (refl, omega arith, refl)

counts :
    (t : ℕ) (l : Lapic) (d n : ℕ)
    → AllFields l 1 d n
    → t ≤ d
    → AllFields (timer 0 t l) 1 d (add32 n 1)
unfolding timer
counts t l d n (stage, deadline, count) before =
    let not_first : (l.stage == 0) ≡ false = ground arith in
    let second : (l.stage == 1) ≡ true = ground arith in
    let early : ltb l.deadline t ≡ false = ground (arith, deadline, before) in
    rw (not_first, second, early) (stage, deadline, ap (λ (c : ℕ). add32 c 1) count)

-- The controller after the last interrupt of the calibration.
pub record Calibrated (l : Lapic) (n : ℕ) : Type 0 where
  pub stage : l.stage ≡ 2
  pub rate : l.ticks_per_sec ≡ n * 3000
  pub earlier : List (ℕ × ℕ)
  pub reloaded : l.writes ≡ (eoi_register, 0xffffffff) ∷ (timer_initial, n) ∷ earlier

measures :
    (t : ℕ) (l : Lapic) (d n : ℕ)
    → AllFields l 1 d n
    → d < t
    → n * 3000 < u32_mod
    → Calibrated (timer 0 t l) n
unfolding timer
measures t l d n (stage, deadline, count) after small =
    let not_first : (l.stage == 0) ≡ false = ground arith in
    let second : (l.stage == 1) ≡ true = ground arith in
    let late : ltb l.deadline t ≡ true = ground (arith, deadline, after) in
    let rate : mul32 (mul32 l.calibration_ticks cal_init) cal_div ≡ n * 3000 =
      omega (arith, count, small) in
    record {
      stage = rw (not_first, second, late) refl;
      rate = rw (not_first, second, late) rate;
      earlier = l.writes;
      reloaded =
          rw (not_first, second, late)
            (ap (λ (v : ℕ). (eoi_register, 0xffffffff) ∷ (timer_initial, v) ∷ l.writes)
              (omega (arith, rate)));
    }

ticks-append : (ts us : List ℕ) (l : Lapic) → ticks (ts ++ us) l ≡ ticks us (ticks ts l)
ticks-append [] us l = refl
ticks-append (t ∷ ts) us l = ticks-append ts us (timer 0 t l)

waits_all :
    (ts : List ℕ) (l : Lapic) (d n : ℕ)
    → AllFields l 0 d n
    → AllUpTo d ts
    → AllFields (ticks ts l) 0 d n
waits_all [] l d n fields early = fields
waits_all (t ∷ ts) l d n fields (early, rest) =
    waits_all ts (timer 0 t l) d n (waits t l d n fields early) rest

counts_all :
    (ts : List ℕ) (l : Lapic) (d n : ℕ)
    → AllFields l 1 d n
    → AllUpTo d ts
    → n + length ts < u32_mod
    → AllFields (ticks ts l) 1 d (n + length ts)
counts_all [] l d n (stage, deadline, count) early small = (stage, deadline, omega (arith, count))
counts_all (t ∷ ts) l d n fields (early, rest) small =
    let more : add32 n 1 ≡ n + 1 = omega (arith, small) in
    let next : AllFields (timer 0 t l) 1 d (n + 1) =
      let (a, b, c) = counts t l d n fields early in (a, b, c ∙ more) in
    let (a, b, c) = counts_all ts (timer 0 t l) d (n + 1) next rest (omega (arith, small)) in
    (a, b, omega (arith, c))

-- From the start on, the interrupts of the timer of processor 0 up to the first deadline change
-- nothing; the first one behind it starts a count that goes on for a second of the other timer, and
-- the first one behind that ends it: the rate is 3000 for each interrupt that was counted, and the
-- timer is set to a thousandth of a third of that. The rate and the times are below 2^32.
pub ticks-Calibrated :
    (l : Lapic) (before during : List ℕ) (start end : ℕ)
    → l.stage ≡ 0
    → AllUpTo l.deadline before
    → l.deadline < start
    → start + per_second + 1 < u32_mod
    → AllUpTo (start + per_second + 1) during
    → start + per_second + 1 < end
    → (1 + length during) * 3000 < u32_mod
    → Calibrated (ticks (before ++ (start ∷ (during ++ (end ∷ [])))) l) (1 + length during)
ticks-Calibrated l before during start end stage early late small within over rate =
    let l0 : Lapic = ticks before l in
    let l1 : Lapic = timer 0 start l0 in
    let l2 : Lapic = ticks during l1 in
    let split : ticks (before ++ (start ∷ (during ++ (end ∷ [])))) l ≡ timer 0 end l2 =
      ticks-append before (start ∷ (during ++ (end ∷ []))) l ∙ ticks-append during (end ∷ []) l1 in
    let idle = waits_all before l l.deadline l.calibration_ticks (stage, refl, refl) early in
    let begun = starts start l0 l.deadline l.calibration_ticks idle late small in
    let counted =
      counts_all during l1 (start + per_second + 1) 1 begun within (omega (arith, rate)) in
    rw split (measures end l2 (start + per_second + 1) (1 + length during) counted over rate)

-- ===== src/Interrupts/Lapic.antt =====
-- The timer and the interrupts between processors of src/int/lapic.cpp. A processor's controller is
-- what is written to its registers, the latest first; `time` is the counter of src/hw/pit.cpp.
pub mod Calibration
mod Tests
use Prim.Native.Nat.{bit_or, bit_and}
use cantos.Prelude.{
  ℕ, zero, suc, ◌+◌, ◌*◌, ◌/◌, ◌%◌, ◌^◌, Bool, true, false, List, [], ◌∷◌, ◌==◌, ltb, if◌then◌else◌,
  add32, mul32,
}

abbrev pub cal_init : ℕ
cal_init = 1000

abbrev pub cal_div : ℕ
cal_div = 3

abbrev pub switches_per_second : ℕ
switches_per_second = 1000

-- PER_SECOND of include/hw/pit.hpp.
abbrev pub per_second : ℕ
per_second = 82

abbrev pub timer_initial : ℕ
timer_initial = 0x380

abbrev pub timer_divide_configuration : ℕ
timer_divide_configuration = 0x3e0

abbrev pub lvt_timer : ℕ
lvt_timer = 0x320

abbrev pub eoi_register : ℕ
eoi_register = 0xb0

abbrev pub icr_a : ℕ
icr_a = 0x300

abbrev pub icr_b : ℕ
icr_b = 0x310

-- TIMER_MODE_PERIODIC | INT_LAPIC_BASE.
abbrev pub periodic : ℕ
periodic = bit_or (2 ^ 17) 0x20

-- The static variables, with what is written to the registers; `yields` counts the calls of
-- task_timer_yield.
pub record Lapic : Type 0 where
  pub stage : ℕ
  pub deadline : ℕ
  pub calibration_ticks : ℕ
  pub ticks_per_sec : ℕ
  pub calibrated : ℕ → Bool
  pub writes : List (ℕ × ℕ)
  pub yields : ℕ

abbrev pub write : ℕ → ℕ → Lapic → Lapic
write reg val l = record l { writes = (reg, val) ∷ l.writes }

abbrev pub eoi : Lapic → Lapic
eoi l = write eoi_register 0xffffffff l

abbrev pub set_timer : ℕ → ℕ → Lapic → Lapic
set_timer timer divide l =
    write lvt_timer periodic (write timer_divide_configuration divide (write timer_initial timer l))

abbrev pub spurious_int_vector : ℕ
spurious_int_vector = 0xf0

-- setup, on every processor but the first.
pub setup : Lapic → Lapic
setup l = set_timer cal_init cal_div (eoi (write spurious_int_vector 0x1ff l))

abbrev pub task_timer_yield : Lapic → Lapic
task_timer_yield l = record l { yields = l.yields + 1 }

-- The value that makes the timer run out as often as threads are switched.
abbrev pub reload : Lapic → ℕ
reload l = l.ticks_per_sec / cal_div / switches_per_second

-- The end of the calibration.
abbrev pub calibrate : Lapic → Lapic
calibrate l =
    let ticks : ℕ = mul32 (mul32 l.calibration_ticks cal_init) cal_div in
    let counted : Lapic = record l { stage = 2; ticks_per_sec = ticks } in
    record (write timer_initial (reload counted) counted) { calibration_ticks = 0 }

-- The switch of timer over the stages, on processor 0.
pub timer_first : ℕ → Lapic → Lapic
timer_first time l =
    if l.stage == 0
    then eoi (
        if ltb l.deadline time
        then record l {
          stage = 1;
          deadline = add32 (add32 time per_second) 1;
          calibration_ticks = 1;
        }
        else l)
    else if l.stage == 1
    then eoi (
        if ltb l.deadline time
        then calibrate l
        else record l { calibration_ticks = add32 l.calibration_ticks 1 })
    else if l.stage == 2
    then task_timer_yield (eoi l)
    else eoi l

-- timer on another processor.
abbrev pub set_calibrated : ℕ → Lapic → Lapic
set_calibrated id l = record l { calibrated = λ j. if j == id then true else l.calibrated j }

pub timer_other : ℕ → Lapic → Lapic
timer_other id l =
    if l.calibrated id
    then task_timer_yield (eoi l)
    else eoi (
        if l.ticks_per_sec == 0
        then l
        else set_calibrated id (write timer_initial (reload l) (set_timer (reload l) cal_div l)))

pub timer : ℕ → ℕ → Lapic → Lapic
unfolding timer_first timer_other
timer id time l = if id == 0 then timer_first time l else timer_other id l

-- _ipi.
pub send_ipi : ℕ → ℕ → ℕ → ℕ → Lapic → Lapic
send_ipi vector dest init_deassert target l =
    write icr_a (bit_or (bit_or (bit_and vector 0xff) (dest * 2 ^ 8)) (init_deassert * 2 ^ 14))
      (write icr_b (mul32 target (2 ^ 24)) l)

pub ipi : ℕ → ℕ → Lapic → Lapic
unfolding send_ipi
ipi vector proc l = send_ipi vector 0 0 proc l

-- The loop of ipi_all from processor `i` on.
pub ipi_from : ℕ → ℕ → ℕ → Lapic → Lapic
unfolding ipi
ipi_from zero i vector l = l
ipi_from (suc n) i vector l = ipi_from n (suc i) vector (ipi vector i l)

pub ipi_all : ℕ → ℕ → ℕ → Lapic → Lapic
unfolding ipi_from
ipi_all proc_count max_cores vector l =
    ipi_from (if ltb proc_count max_cores then proc_count else max_cores) 0 vector l

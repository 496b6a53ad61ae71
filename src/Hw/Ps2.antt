-- ===== src/Hw/Ps2.antt =====
-- The PS/2 controller of src/hw/ps2.cpp. What the hardware answers to a read is a parameter, a function
-- of all that went over the ports before; the calls of ioapic and lapic are kept with that.
mod Numbers
pub use Numbers.*
pub mod Timeout
pub mod Acknowledge
pub mod Identify
mod Controller
mod Tests
use Prim.Native.Nat.{bit_or, bit_and}
use cantos.Prelude.{
  ℕ, zero, suc, ◌+◌, ◌-◌, ◌%◌, ◌^◌, Bool, true, false, not, ◌&&◌, ◌||◌, List, [], ◌∷◌, Option, none,
  some, ◌==◌, if◌then◌else◌, sub32,
}

-- What goes over the ports, and the calls of other parts of the kernel.
pub data Access : Type 0 where
  status_read : Access
  data_read : Access
  data_written : ℕ → Access
  command_written : ℕ → Access
  io_waited : Access
  irq_enabled : ℕ → Access
  interrupt_ended : Access

-- The latest access comes first.
abbrev pub Trace : Type 0
Trace = List Access

abbrev pub Hardware : Type 0
Hardware = Trace → ℕ

-- How a command ends: with a value, in panic(), or with its fuel used up in a loop.
pub data Outcome (A : Type 0) : Type 0 where
  done : A → Trace → Outcome A
  panicked : Outcome A
  exhausted : Outcome A

abbrev pub Io : Type 0 → Type 0
Io A = Trace → Outcome A

module _ {A B : Type 0} where
  abbrev pub and_then : Outcome A → (A → Io B) → Outcome B
  and_then (done a t) k = k a t
  and_then panicked k = panicked
  and_then exhausted k = exhausted

  infixl 5 ◌>>=◌ ◌>>◌
  abbrev pub ◌>>=◌ : Io A → (A → Io B) → Io B
  m >>= k = λ t. and_then (m t) k

  abbrev pub ◌>>◌ : Io A → Io B → Io B
  m >> n = m >>= λ _. n

abbrev pub note : Access → Io (Unit {0})
note a t = done tt (a ∷ t)

-- Ps2Port; `driver` says whether there is a keyboard driver.
pub record Port : Type 0 where
  pub enabled : Bool
  pub second : Bool
  pub timed_out : Bool
  pub type : ℕ
  pub driver : Bool

abbrev pub write_data : ℕ → Io (Unit {0})
write_data v = note (data_written v)

abbrev pub write_command : ℕ → Io (Unit {0})
write_command v = note (command_written v)

abbrev pub is_busy : ℕ → Bool
is_busy status = not (bit_and status stat_inbuff == 0)

module _ (hardware : Hardware) where
  abbrev pub read_data : Io ℕ
  read_data t = done (hardware t) (data_read ∷ t)

  abbrev pub read_status : Io ℕ
  read_status t = done (hardware t) (status_read ∷ t)

  -- The loop of _write_double_command and _wait_read_data, which has no bound.
  pub wait_ready : ℕ → Io (Unit {0})
  wait_ready zero t = exhausted
  wait_ready (suc fuel) t =
      if is_busy (hardware t)
      then wait_ready fuel (io_waited ∷ status_read ∷ t)
      else done tt (status_read ∷ t)

  pub write_double_command : ℕ → ℕ → ℕ → Io (Unit {0})
  unfolding wait_ready
  write_double_command fuel command arg = write_command command >> wait_ready fuel >> write_data arg

  pub wait_read_data : ℕ → Io ℕ
  unfolding wait_ready
  wait_read_data fuel = wait_ready fuel >> read_data

  -- The loop of Ps2Port::read.
  pub read_loop : ℕ → ℕ → Port → Io (ℕ × Port)
  read_loop zero timeout p t = exhausted
  read_loop (suc fuel) timeout p t =
      if is_busy (hardware t)
      then (if sub32 timeout 1 == 0
          then done (0xff, record p { timed_out = true }) (io_waited ∷ status_read ∷ t)
          else read_loop fuel (sub32 timeout 1) p (io_waited ∷ status_read ∷ t))
      else done (hardware (status_read ∷ t), p) (data_read ∷ status_read ∷ t)

  pub read : ℕ → ℕ → Port → Io (ℕ × Port)
  unfolding read_loop
  read fuel timeout p = read_loop fuel timeout (record p { timed_out = false })

  pub write : ℕ → Port → Io (Unit {0})
  write dat p = if p.second then write_command com_next2in >> write_data dat else write_data dat

  -- Ps2Port::write_ack, with fuel for its rounds and for those of each read.
  pub write_ack : ℕ → ℕ → ℕ → Port → Io Port
  unfolding write read
  write_ack zero fuel dat p t = exhausted
  write_ack (suc rounds) fuel dat p t =
      (write dat p >> read fuel 0xffff p >>= λ (byte, p').
      let again = write_ack rounds fuel dat p' in
      if (byte == ack_byte) || p'.timed_out
      then done p'
      else if byte == resend_byte
      then again
      else done p')
        t

  -- The part of Ps2Port::init that reads the answer of the device: info_length, info[0], info[1].
  abbrev pub Answer : Type 0
  Answer = ℕ × (ℕ × ℕ)

  pub read_info : ℕ → Port → Io (Answer × Port)
  unfolding read
  read_info fuel p = read fuel 0xffff p >>= λ (a, p1).
      if p1.timed_out
      then done ((0, (a, 0)), p1)
      else (read fuel 0xffff p1 >>= λ (b, p2). done ((if p2.timed_out then 1 else 2, (a, b)), p2))

-- The switch over the answer of the device.
abbrev pub type_of : ℕ → ℕ → ℕ
type_of a b =
    if a == 0x00
    then type_standard_mouse
    else if a == 0x03
    then type_scroll_mouse
    else if a == 0x04
    then type_5btn_mouse
    else if a == 0xab
    then (if (b == 0x41) || (b == 0xc1)
        then type_translation_mf2_keyboard
        else if b == 0x83
        then type_mf2_keyboard
        else type_unknown)
    else type_unknown

abbrev pub identify : ℕ → ℕ → ℕ → ℕ
identify info_length a b = if info_length == 0 then type_translation_keyboard_at else type_of a b

abbrev pub is_keyboard : ℕ → Bool
is_keyboard type = not (bit_and type type_keyboard == 0)

abbrev pub disable : Port → Port
disable p = record p { enabled = false }

module _ (hardware : Hardware) where
  -- The end of Ps2Port::init: the port is turned on in the controller.
  pub enable_port : ℕ → Port → Io Port
  unfolding wait_read_data write_double_command
  enable_port fuel p = write_command com_read >> wait_read_data hardware fuel >>= λ config.
      write_double_command hardware fuel com_write
        (bit_or config (if p.second then con_en2 else con_en1))
      >> done p

  -- The part of Ps2Port::init behind the answer of the device.
  pub set_type : ℕ → ℕ → Port → Io Port
  unfolding enable_port
  set_type fuel type p =
      if type == type_unknown
      then done (record p { type = type; enabled = false })
      else enable_port fuel
          (record p { type = type; driver = if is_keyboard type then true else p.driver })

  pub init_identified : ℕ → Port → Io Port
  unfolding read_info set_type
  init_identified fuel p =
      if p.timed_out
      then done (disable p)
      else read_info hardware fuel p >>= λ ((info_length, (a, b)), p').
          set_type fuel (identify info_length a b) p'

  -- Ps2Port::init.
  pub init_port : ℕ → ℕ → Port → Io Port
  unfolding write_ack init_identified
  init_port rounds fuel p =
      write_command (if p.second then com_en2 else com_en1)
      >> write_ack hardware rounds fuel dev_disable_scan p
      >>= λ p1.
          if p1.timed_out
          then done (disable p1)
          else write_ack hardware rounds fuel dev_identify p1 >>= λ p2. init_identified fuel p2

-- Ps2Port::handle; `handle_driver` is the virtual function of the driver.
pub handle_port : Io (Unit {0}) → Port → Io (Unit {0})
handle_port handle_driver p =
    (if p.enabled && p.driver then handle_driver else done tt) >> note interrupt_ended

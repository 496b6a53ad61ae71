-- ===== src/Hw/Ps2/Identify.antt =====
-- What Ps2Port::init of src/hw/ps2.cpp leaves of a port.
use Prim.Native.Nat.{bit_or}
use cantos.Prelude.{
  ℕ, ◌<◌, ◌≤◌, ◌≡◌, ◌≢◌, refl, inl, inr, ◌∷◌, Bool, true, false, ◌==◌, not_==→ne, if◌then◌else◌,
  arith, Bool-cases,
}
use cantos.Hw.Ps2.{
  data_read, data_written, command_written, Trace, Hardware, Outcome, done, Port, wait_ready, read,
  wait_read_data, write_double_command, write_ack, read_info, identify, is_keyboard, disable,
  enable_port, set_type, init_identified, init_port, com_read, com_write, com_en1, com_en2,
  dev_disable_scan, dev_identify, type_unknown, con_en1, con_en2,
}
use cantos.Hw.Ps2.Timeout.{Settles, wait_ready-done}
use cantos.Hw.Ps2.Acknowledge.{Patient, read-ends, write_ack-done}

-- A port that is on has a device of a known type, and a driver if that is a keyboard.
pub record Known (p : Port) : Type 0 where
  pub type : p.enabled ≡ true → p.type ≢ type_unknown
  pub driver : p.enabled ≡ true → is_keyboard p.type ≡ true → p.driver ≡ true

-- A command that returns a known port.
abbrev pub Returns : Outcome Port → Type 0
Returns r = (p : Port) × (t : Trace) × (r ≡ done p t) × Known p

off-Known : (p : Port) → p.enabled ≡ false → Known p
off-Known p off = record { type = λ on. absurd cc; driver = λ on. absurd cc }

module _ (hardware : Hardware) (fuel : ℕ) where
  enable_port-run :
      (p : Port) (t t1 t2 : Trace)
      → wait_ready hardware fuel (command_written com_read ∷ t) ≡ done tt t1
      → wait_ready hardware fuel (command_written com_write ∷ data_read ∷ t1) ≡ done tt t2
      → (t' : Trace) × (enable_port hardware fuel p t ≡ done p t')
  unfolding enable_port wait_read_data write_double_command
  enable_port-run p t t1 t2 ready ready' = (
    data_written (bit_or (hardware t1) (if p.second then con_en2 else con_en1)) ∷ t2,
    rw (ready, ready') refl,
  )

  set_type-run :
      (type : ℕ) (p q : Port) (t t' : Trace)
      → (type == type_unknown) ≡ false
      → enable_port hardware fuel
          (record p { type = type; driver = if is_keyboard type then true else p.driver })
          t
        ≡ done q t'
      → set_type hardware fuel type p t ≡ done q t'
  unfolding set_type
  set_type-run type p q t t' known run = rw (known, run) refl

  read_info-run :
      (p : Port) (out' : Bool) (a b : ℕ) (t t1 t2 : Trace)
      → read hardware fuel 0xffff p t ≡ done (a, record p { timed_out = false }) t1
      → read hardware fuel 0xffff (record p { timed_out = false }) t1
        ≡ done (b, record p { timed_out = out' }) t2
      → read_info hardware fuel p t
        ≡ done ((if out' then 1 else 2, (a, b)), record p { timed_out = out' }) t2
  unfolding read_info
  read_info-run p out' a b t t1 t2 run run' = rw (run, run') refl

  init_identified-run :
      (p q r : Port) (l a b : ℕ) (t t1 t2 : Trace)
      → p.timed_out ≡ false
      → read_info hardware fuel p t ≡ done ((l, (a, b)), q) t1
      → set_type hardware fuel (identify l a b) q t1 ≡ done r t2
      → init_identified hardware fuel p t ≡ done r t2
  unfolding init_identified
  init_identified-run p q r l a b t t1 t2 answered run later = simp answered (rw (run, later) refl)

  init_port-run :
      (rounds : ℕ) (p q r : Port) (t t1 t2 t3 : Trace)
      → write_ack hardware rounds fuel dev_disable_scan p
          (command_written (if p.second then com_en2 else com_en1) ∷ t)
        ≡ done (record p { timed_out = false }) t1
      → write_ack hardware rounds fuel dev_identify (record p { timed_out = false }) t1 ≡ done q t2
      → init_identified hardware fuel q t2 ≡ done r t3
      → init_port hardware rounds fuel p t ≡ done r t3
  unfolding init_port
  init_port-run rounds p q r t t1 t2 t3 run run' later = rw (run, run', later) refl

  init_port-late :
      (rounds : ℕ) (p : Port) (t t1 : Trace)
      → write_ack hardware rounds fuel dev_disable_scan p
          (command_written (if p.second then com_en2 else com_en1) ∷ t)
        ≡ done (record p { timed_out = true }) t1
      → init_port hardware rounds fuel p t ≡ done (disable (record p { timed_out = true })) t1
  unfolding init_port
  init_port-late rounds p t t1 run = rw run refl

module _ (hardware : Hardware) (n fuel : ℕ) (settles : Settles hardware n) (enough : n ≤ fuel) where
  enable_port-done :
      (p : Port) (t : Trace) → (t' : Trace) × (enable_port hardware fuel p t ≡ done p t')
  enable_port-done p t =
      let (t1, ready) =
        wait_ready-done hardware n fuel (command_written com_read ∷ t) settles enough in
      let (t2, ready') =
        wait_ready-done hardware n fuel (command_written com_write ∷ data_read ∷ t1) settles
          enough in
      enable_port-run hardware fuel p t t1 t2 ready ready'

  set_type-Returns : (type : ℕ) (p : Port) (t : Trace) → Returns (set_type hardware fuel type p t)
  unfolding set_type
  set_type-Returns type p t = elim (Bool-cases (type == type_unknown)) [
    | inl unknown ↦
        (record p { type = type; enabled = false }, t, rw unknown refl, off-Known _ refl)
    | inr known ↦
        let q : Port = record p {
          type = type;
          driver = if is_keyboard type then true else p.driver;
        } in
        let (t', run) = enable_port-done q t in
        (
          q,
          t',
          set_type-run hardware fuel type p q t t' known run,
          record {
            type = λ on. not_==→ne type type_unknown known;
            driver = λ on keyboard. rw keyboard refl;
          },
        )
  ]

module _ (hardware : Hardware) (k n fuel : ℕ) (settles : Settles hardware n) (enough : n ≤ fuel)
    (patient : Patient hardware k) (long : 0xffff ≤ fuel) where
  InfoRead : Port → Trace → Type 0
  InfoRead p t =
      (l : ℕ) × (a : ℕ) × (b : ℕ) × (q : Port) × (t' : Trace) × (read_info hardware fuel p t
        ≡ done ((l, (a, b)), q) t')

  read_info-from :
      (out : Bool) (p : Port) (a : ℕ) (t t1 : Trace)
      → read hardware fuel 0xffff p t ≡ done (a, record p { timed_out = out }) t1
      → InfoRead p t
  unfolding read_info InfoRead
  read_info-from true p a t t1 run = (0, a, 0, record p { timed_out = true }, t1, rw run refl)
  read_info-from false p a t t1 run =
      let (b, out', t2, run', _, _) =
        read-ends hardware k fuel (record p { timed_out = false }) t1 patient long in
      (
        if out' then 1 else 2,
        a,
        b,
        record p { timed_out = out' },
        t2,
        read_info-run hardware fuel p out' a b t t1 t2 run run',
      )

  init_identified-Returns : (p : Port) (t : Trace) → Returns (init_identified hardware fuel p t)
  unfolding init_identified InfoRead
  init_identified-Returns p t = elim (Bool-cases p.timed_out) [
    | inl late ↦ (disable p, t, simp late refl, off-Known _ refl)
    | inr answered ↦
        let (a, out, t1, run, _, _) = read-ends hardware k fuel p t patient long in
        let (l, a', b, q, t2, info) = read_info-from out p a t t1 run in
        let (r, t3, later, known) =
          set_type-Returns hardware n fuel settles enough (identify l a' b) q t2 in
        (r, t3, init_identified-run hardware fuel p q r l a' b t t2 t3 answered info later, known)
  ]

  init_port-from :
      (out : Bool) (rounds : ℕ) (p : Port) (t t1 : Trace)
      → k < rounds
      → write_ack hardware rounds fuel dev_disable_scan p
          (command_written (if p.second then com_en2 else com_en1) ∷ t)
        ≡ done (record p { timed_out = out }) t1
      → Returns (init_port hardware rounds fuel p t)
  init_port-from true rounds p t t1 more run = (
    disable (record p { timed_out = true }),
    t1,
    init_port-late hardware fuel rounds p t t1 run,
    off-Known _ refl,
  )
  init_port-from false rounds p t t1 more run =
      let p1 : Port = record p { timed_out = false } in
      let (out', t2, run', _) =
        write_ack-done hardware k rounds fuel dev_identify p1 t1 patient long (omega (arith, more))
          (omega (arith, more)) in
      let (r, t3, later, known) = init_identified-Returns (record p { timed_out = out' }) t2 in
      (
        r,
        t3,
        init_port-run hardware fuel rounds p (record p { timed_out = out' }) r t t1 t2 t3 run run'
            later,
        known,
      )

-- Ps2Port::init returns, and a port that is still enabled has a device of a known type, with a driver
-- if that is a keyboard. The controller gets ready within `n` rounds whenever it is waited for, and the
-- device answers no byte by RESEND once `k` have been written; the fuel is for these bounds.
pub init_port-Returns :
    (hardware : Hardware) (k n rounds fuel : ℕ) (p : Port) (t : Trace)
    → Settles hardware n
    → n ≤ fuel
    → Patient hardware k
    → 0xffff ≤ fuel
    → k < rounds
    → Returns (init_port hardware rounds fuel p t)
init_port-Returns hardware k n rounds fuel p t settles enough patient long more =
    let start : Trace = command_written (if p.second then com_en2 else com_en1) ∷ t in
    let (out, t1, run, _) =
      write_ack-done hardware k rounds fuel dev_disable_scan p start patient long
        (omega (arith, more)) (omega (arith, more)) in
    init_port-from hardware k n fuel settles enough patient long out rounds p t t1 more run

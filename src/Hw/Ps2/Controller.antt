-- ===== src/Hw/Ps2/Controller.antt =====
-- init of src/hw/ps2.cpp: the controller, and the test of its ports.
use Prim.Native.Nat.{bit_and}
use cantos.Prelude.{ℕ, Bool, true, false, ◌&&◌, ◌==◌, if◌then◌else◌}
use cantos.Hw.Ps2.{
  com_read, com_write, com_dis2, com_en2, com_test2, com_testcon, com_test1, com_dis1, con_clock2,
  con_kept, Hardware, done, panicked, Io, ◌>>=◌, ◌>>◌, irq_enabled, Port, note, write_command,
  read_data, wait_read_data, write_double_command, init_port,
}

-- The static variables.
pub record Ps2 : Type 0 where
  pub dual : Bool
  pub known_dual : Bool
  pub first_port : Port
  pub second_port : Port

-- `configure` is the virtual function of the driver of a port.
module _ (hardware : Hardware) (configure : Port → Io (Unit {0})) where
  -- The test of a port: the device is set up where the controller answers 0.
  pub test_port : ℕ → ℕ → ℕ → Port → Io Port
  unfolding wait_read_data init_port
  test_port rounds fuel command p =
      write_command command >> wait_read_data hardware fuel >>= λ result.
      if result == 0 then init_port hardware rounds fuel (record p { enabled = true }) else done p

  -- The part of init that finds out whether there are two ports.
  pub find_dual : ℕ → Ps2 → Io Ps2
  unfolding wait_read_data
  find_dual fuel s =
      if s.known_dual
      then done s
      else write_command com_en2
        >> write_command com_read
        >> wait_read_data hardware fuel
        >>= λ config.
            if bit_and config con_clock2 == 0
            then done (record s { dual = false; known_dual = true })
            else write_command com_dis2 >> done (record s { dual = true; known_dual = true })

  pub set_config : ℕ → Ps2 → Io Ps2
  unfolding wait_read_data write_double_command
  set_config fuel s = write_command com_read >> wait_read_data hardware fuel >>= λ config.
      write_double_command hardware fuel com_write (bit_and config con_kept)
      >> done (
          if bit_and config con_clock2 == 0
          then record s { dual = false; known_dual = true }
          else s)

  pub self_test : ℕ → Io (Unit {0})
  unfolding wait_read_data
  self_test fuel = write_command com_testcon >> wait_read_data hardware fuel >>= λ result.
      if result == 0x55 then done tt else (λ t. panicked)

  abbrev pub configure_if : Bool → Port → Io (Unit {0})
  configure_if wanted p = if wanted && p.driver then configure p else done tt

  pub init_ports : ℕ → ℕ → Ps2 → Io Ps2
  unfolding test_port
  init_ports rounds fuel s = test_port rounds fuel com_test1 s.first_port >>= λ p.
      test_port rounds fuel com_test2 s.second_port >>= λ q.
      done (record s { first_port = p; second_port = q })

  -- init.
  pub init : ℕ → ℕ → Ps2 → Io Ps2
  unfolding set_config self_test find_dual init_ports
  init rounds fuel s = do
    write_command com_dis1
    write_command com_dis2
    read_data hardware
    s1 ← set_config fuel (record s {
      first_port = record s.first_port { second = false };
      second_port = record s.second_port { second = true };
    })
    self_test fuel
    s2 ← find_dual fuel s1
    s3 ← init_ports rounds fuel s2
    note (irq_enabled 0xc)
    note (irq_enabled 0x1)
    configure_if true s3.first_port
    configure_if s3.known_dual s3.second_port
    done s3

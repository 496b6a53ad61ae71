-- ===== src/Interrupts/Commands/Tests.antt =====
-- Runs of the commands of src/int/lapic.cpp between two processors, and the theorems there.
use cantos.Prelude.{◌≡◌, refl, true, false, []}
use cantos.Interrupts.Commands.{
  free, locking, waiting, Cores, put_phase, begin, send, finish, handle, Reaches, here, later,
  quiet,
}
use cantos.Interrupts.Commands.Deadlock.{send_command_all-stuck}
use cantos.Interrupts.Commands.Exclusion.{Exclusive, Reaches-Exclusive}

-- Processor 0 of two sends a command, and processor 1 takes it.
abbrev sent_one : Cores
sent_one = record {
  phase = put_phase 0 (waiting 1 []) (put_phase 0 (locking 1 []) quiet.phase);
  locked = true;
  command_finished = put_phase 1 false quiet.command_finished;
  sent = put_phase 1 true quiet.sent;
}

sent_one_reached : Reaches 2 quiet sent_one
sent_one_reached = later (later here (begin 0 refl)) (send 0 1 [] refl refl)

-- It ends where nobody else calls.
ends : (s : Cores) × Reaches 2 quiet s × (s.phase 0 ≡ free) × (s.locked ≡ false)
ends =
    (_, later (later sent_one_reached (handle 1 refl refl)) (finish 0 1 [] refl refl), refl, refl)

Reaches-Exclusive_example : Exclusive sent_one
Reaches-Exclusive_example = Reaches-Exclusive sent_one_reached

send_command_all-stuck_example :
    (s : Cores) × Reaches 2 quiet s
    × ((t : Cores)
        → Reaches 2 s t
        → (t.phase 0 ≡ waiting 1 []) × (t.phase 1 ≡ locking 0 []) × (t.locked ≡ true))
send_command_all-stuck_example = send_command_all-stuck 0

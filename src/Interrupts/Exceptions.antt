-- ===== src/Interrupts/Exceptions.antt =====
-- The page faults of src/int/exceptions.cpp: the thread that runs has a map, which resolves them.
use cantos.Prelude.{ℕ, Option, none, some, if◌then◌else◌}
use cantos.Mem.State.{Cmd, ◌>>=◌, pure, do_panic}
use cantos.Mem.Object.{Space, resolve_fault}

-- page_fault at an address, where `current` is the map of the thread that runs; the other handlers of
-- that file call panic_at and nothing else.
pub page_fault : ℕ → Option ℕ → ℕ → Space → Cmd Space
page_fault fuel none addr s = do_panic
page_fault fuel (some map) addr s =
    resolve_fault fuel map addr s >>= λ r. if r.0 then pure r.1 else do_panic

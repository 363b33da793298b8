-- ===== src/Tests/Processes.antt =====
-- The theorems on processes, in the small system.
use okssystem.Prelude.{◌≡◌, ◌≢◌, refl, arith, true, false, none, some, [], codes, pos, is_zero}
use okssystem.Calls.{Waited}
use okssystem.Process.{Process, State, instance_process, join, joined, same_process}
use okssystem.Process.Control.{current_id, join-eq-ok}
use okssystem.Tests.World.{World, processes}

abbrev start : State World
start = record { world = []; s_instance = none }

abbrev running : State World
running = record {
  world = [];
  s_instance = some (record { m_process_id = pos 5; m_process_name = [] });
}

abbrev named : State World
named = record {
  world = [];
  s_instance = some (record { m_process_id = pos 5; m_process_name = codes "run" });
}

abbrev child_process : Process
child_process = record { m_process_id = pos 6; m_process_name = [] }

join-eq-ok_example :
    (waited : Waited) × (processes.waitpid (pos 6) [] ≡ (waited, []))
    × (waited.pid ≡ pos 6)
    × (pos 6 ≢ current_id processes start)
    × (processes.wifexited waited.status ≡ true)
    × (pos 3 ≡ processes.wexitstatus waited.status)
    × ((false ≡ true) → (is_zero (pos 3) ≡ true))
unfolding join joined instance_process same_process
join-eq-ok_example =
    join-eq-ok processes (λ status e f. ground arith) child_process false start running (pos 3) refl

-- ===== src/OksSystemTest/Status.antt =====
-- Starting a program and waiting for it.
use okssystem.Prelude.{
  ℕ, ◌≡◌, inl, inr, refl, ◌∙◌, Bool, true, false, arith, Option, [], ◌∷◌, ℤ, is_zero, Out-cases, ok,
  err, state_of, print_integer, some, none, Text,
}
use okssystem.Calls.{Waited, SpawnCalls, IoCalls, ProcessCalls}
use okssystem.Process.{Process, State, join, joined, instance_process}
use okssystem.Process.Control.{join-eq-ok}
use okssystem.Executable.{Executable, Program}
use okssystem.Executable.Start.{Run, parent, child, runs, exits, exit_failure, start}
use okssystem.Executable.Arguments.{program_of}
use okssystem.Executable.Started.{Becomes, start-Becomes}
use okssystem.Executable.Mask.{AtEnd, IsMask, start-mask}
use okssystem.OksSystemTest.{run_then, test_exec}

module _ {W : Type 0} (calls : ProcessCalls W) (mask : W → ℕ) where
  -- How `test_exec` may end for a caller with this mask, where it starts this program and the start
  -- ends so: it returns only if the process that was started has exited with 0.
  abbrev pub Tested : ℕ → Program → Run W W Process → Run W (State W) ℤ → Type 0
  Tested m program started (parent (ok r t)) =
      (mask t.world ≡ m)
      × (is_zero r ≡ true)
      × ((p : Process) × (v : W) × (waited : Waited) × (started ≡ parent (ok p v))
          × (calls.waitpid p.m_process_id v ≡ (waited, t.world))
          × (waited.pid ≡ p.m_process_id)
          × (calls.wifexited waited.status ≡ true)
          × (r ≡ calls.wexitstatus waited.status))
  Tested m program started (parent (err e t)) = mask t.world ≡ m
  Tested m program started (child (runs p w)) = (mask w ≡ m) × (p ≡ program)
  Tested m program started (child (exits status w)) = status ≡ exit_failure

  module _ (waits : (pid : ℤ) (w : W) → mask (calls.waitpid pid w).1 ≡ mask w)
      (exhaustive : (status : ℕ)
        → calls.wifexited status ≡ false
        → calls.wifsignaled status ≡ false
        → calls.wifstopped status ≡ true) where
    join_mask :
        (p : Process) (throw_non_zero : Bool) (s : State W)
        → mask (state_of (join calls p throw_non_zero s)).world ≡ mask s.world
    unfolding join joined instance_process
    join_mask p throw_non_zero s = ground (arith, waits p.m_process_id s.world)

    join-Tested :
        (m : ℕ) (program : Program) (p : Process) (s : State W)
        → mask s.world ≡ m
        → Tested m program (parent (ok p s.world)) (parent (join calls p true s))
    join-Tested m program p s h = elim (Out-cases (join calls p true s)) [
      | inl (r, t, e) ↦
          let (waited, asked, own, apart, exited, same, zero) =
            join-eq-ok calls exhaustive p true s t r e in
          let kept = rw e at (join_mask p true s) in
          rw e (kept ∙ h, zero refl, (p, s.world, waited, refl, asked, own, exited, same))
      | inr (issue, t, e) ↦ let kept = rw e at (join_mask p true s) in rw e (kept ∙ h)
    ]

    run_then-Tested :
        (m : ℕ) (program : Program) (o : Run W W Process) (s_instance : Option Process)
        → AtEnd (λ v. mask v ≡ m) o
        → Becomes program o
        → Tested m program o (run_then o s_instance (λ p. join calls p true))
    run_then-Tested m program (parent (ok p w)) s_instance h b =
        join-Tested m program p (record { world = w; s_instance = s_instance }) h
    run_then-Tested m program (parent (err e w)) s_instance h b = h
    run_then-Tested m program (child (runs p w)) s_instance h b = (h, b)
    run_then-Tested m program (child (exits status w)) s_instance h b = h

    -- If `sigmask` behaves as `IsMask` says, `waitpid` leaves the mask alone, every status is the one
    -- of a child that has exited, was signalled or stopped, and there is memory for the copies:
    -- `test_exec`, which starts a program and joins it, returns only the value 0, and only if
    -- `waitpid` answered for the process that was started and this one has exited with 0; on every way
    -- out the caller has the mask that it had. A child that becomes a program has this mask too, and becomes that of the file, with its name and
    -- the status in digits as arguments and the environment of the caller; a child without a program
    -- exits with EXIT_FAILURE.
    pub test_exec-Tested :
        (spawn : SpawnCalls W) (io : IoCalls W)
        → IsMask spawn io mask
        → ((size : ℕ) (w : W) → spawn.calloc size w ≡ true)
        → ((s : Text) (w : W) → spawn.strdup s w ≡ some s)
        → (executable : Executable) (status : ℤ) (s : State W)
        → Tested
            (mask s.world)
            (program_of executable (print_integer status ∷ []) none)
            (start spawn io executable (print_integer status ∷ []) s.world)
            (test_exec spawn io calls executable status s)
    unfolding test_exec
    test_exec-Tested spawn io laws memory copies executable status s =
        let params = print_integer status ∷ [] in
        run_then-Tested (mask s.world) (program_of executable params none)
          (start spawn io executable params s.world) s.s_instance
          (start-mask spawn io mask laws executable params [] s.world).0
          (start-Becomes spawn io memory copies executable params s.world)

-- ===== src/Executable/Mask.antt =====
-- The signal mask of a program that is started, and that of its caller afterwards.
pub mod Redirected
pub mod Piped
use okssystem.Prelude.{
  ℕ, ◌≡◌, ◌⊎◌, inl, inr, refl, sym, ◌∙◌, ap, Bool, true, false, Bool-cases, if◌then◌else◌, Option,
  none, some, Option-cases, List, [], ◌∷◌, arith, Text, ℤ, pos, Issue, close_file_issue,
  open_file_issue, M, Out, ok, err, Out-cases, state_of,
}
use okssystem.Calls.{
  Answer, Answer-cases, done, failed, Forked, in_child, in_parent, no_child, SpawnCalls, IoCalls,
  UserCalls, FileCalls,
}
use okssystem.StringMemoryArea.Maps.{StrMap}
use okssystem.File.Object.{File}
use okssystem.Descriptor.{Descriptor, destroy, close_safe, open_descriptor, flags}
use okssystem.Process.{Process}
use okssystem.Executable.{
  Executable, Program, Exec, becomes, throws, exec, exec_env, exec_argv, exec_argv_env, to_string,
}
use okssystem.Executable.Start.{
  Run, parent, child, Child, runs, exits, all_signals, exec_or_exit, restore_mask, default_signals,
  forked, after_fork, start, start_and_forget, start_env, exit_failure, sigcld,
}
use okssystem.Executable.Redirect.{
  Streams, destroyed, destroy_streams, child_streams, unwind, scoped, run_redirected,
  after_fork_redirected, open_streams, redirected, pipe_out, pipe_out_env,
}

-- What a property of the system means for the end of a run: in the parent it holds of what is left,
-- in the child of the system in which the program runs; a child without a program exits with a
-- failure.
abbrev pub AtEnd : {W A : Type 0} → (W → Type 0) → Run W W A → Type 0
AtEnd P (parent (ok a w)) = P w
AtEnd P (parent (err e w)) = P w
AtEnd P (child (runs program w)) = P w
AtEnd P (child (exits status w)) = status ≡ exit_failure

-- The state in which `exec` leaves the system.
abbrev pub exec_world : {W : Type 0} → Exec W → W
exec_world (becomes program w) = w
exec_world (throws issue w) = w

-- `sigmask` sets the mask and gives the old one, and the calls on descriptors leave it alone.
pub record IsMask {W : Type 0} (spawn : SpawnCalls W) (io : IoCalls W) (mask : W → ℕ) : Type 0 where
  pub sets : (m : ℕ) (w : W) → mask (spawn.sigmask m w).1 ≡ m
  pub gives : (m : ℕ) (w : W) → (spawn.sigmask m w).0 ≡ mask w
  pub dup2_keeps : (fd n : ℤ) (w : W) → mask (spawn.dup2 fd n w) ≡ mask w
  pub close_keeps : (fd : ℤ) (w : W) → mask (io.close fd w).1 ≡ mask w
  pub open_keeps : (name : Text) (f p : ℕ) (w : W) → mask (io.open_file name f p w).1 ≡ mask w
  pub fchmod_keeps : (fd : ℤ) (p : ℕ) (w : W) → mask (io.fchmod fd p w) ≡ mask w
  pub warning_keeps : (e : Issue) (w : W) → mask (io.warning e w) ≡ mask w

pub exec-exec_world :
    {W : Type 0} (spawn : SpawnCalls W) (e : Executable) (params : List Text) (w : W)
    → exec_world (exec spawn e params w) ≡ w
unfolding exec exec_argv
exec-exec_world spawn e params w = ground arith

pub exec_env-exec_world :
    {W : Type 0} (spawn : SpawnCalls W) (e : Executable) (params : List Text) (envs : StrMap)
    (w : W)
    → exec_world (exec_env spawn e params envs w) ≡ w
unfolding exec_env exec_argv_env
exec_env-exec_world spawn e params envs w = ground arith

module _ {W : Type 0} (spawn : SpawnCalls W) (io : IoCalls W) (mask : W → ℕ)
    (laws : IsMask spawn io mask) where
  pub child_mask :
      (m : ℕ) (x : Exec W)
      → mask (exec_world x) ≡ m
      → AtEnd {A = Process} (λ v. mask v ≡ m) (child (exec_or_exit spawn io x))
  child_mask m (becomes program w) h = h
  child_mask m (throws issue w) h = refl

  -- Behind a `fork`, if the mask to restore is `m`.
  after_fork_mask :
      (m : ℕ) (prepare : W → W) (run : W → Exec W) (name : Text)
      → ((v : W) → exec_world (run v) ≡ v)
      → (answer : Forked) (w : W)
      → AtEnd (λ v. mask v ≡ m) (after_fork spawn io m prepare run name answer w)
  after_fork_mask m prepare run name same in_child w =
      let v = restore_mask spawn io m (prepare w) in
      child_mask m (run v) (ap mask (same v) ∙ laws.sets m (prepare w))
  after_fork_mask m prepare run name same (in_parent id) w = laws.sets m w
  after_fork_mask m prepare run name same (no_child errno) w = laws.sets m w

  blocked_mask :
      (prepare : W → W) (run : W → Exec W) (name : Text) (w v : W)
      → ((v : W) → exec_world (run v) ≡ v)
      → AtEnd
          (λ v. mask v ≡ mask w)
          (forked spawn io (spawn.sigmask all_signals w).0 prepare run name v)
  blocked_mask prepare run name w v same =
      rw (laws.gives all_signals w)
        (after_fork_mask (mask w) prepare run name same (spawn.fork v).0 (spawn.fork v).1)

  -- If `sigmask` sets the signal mask and gives the old one (`IsMask`), then whatever `fork` answers,
  -- the three methods that start a program leave the caller with the mask that it had, a program that
  -- they start runs with this mask, and a child without a program exits with EXIT_FAILURE.
  pub start-mask :
      (e : Executable) (params : List Text) (envs : StrMap) (w : W)
      → AtEnd (λ v. mask v ≡ mask w) (start spawn io e params w)
        × AtEnd (λ v. mask v ≡ mask w) (start_and_forget spawn io e params w)
        × AtEnd (λ v. mask v ≡ mask w) (start_env spawn io e params envs w)
  unfolding start start_and_forget start_env
  start-mask e params envs w =
      let blocked = (spawn.sigmask all_signals w).1 in
      let plain = exec-exec_world spawn e params in
      (
        blocked_mask (default_signals spawn io) (exec spawn e params) (to_string e params) w blocked
            plain,
        blocked_mask (λ v. spawn.set_default sigcld (default_signals spawn io v))
            (exec spawn e params) (to_string e params) w (spawn.set_ignored sigcld blocked) plain,
        blocked_mask (default_signals spawn io) (exec_env spawn e params envs) [] w blocked
            (exec_env-exec_world spawn e params envs),
      )

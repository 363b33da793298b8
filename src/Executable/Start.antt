-- ===== src/Executable/Start.antt =====
-- src/Executable.cpp: starting a program in a child process. A method that forks goes on as the
-- parent or as the child; which of them is seen is what `fork` answers.
use okssystem.Prelude.{
  ℕ, ◌^◌, ◌-◌, List, Text, codes, pos, Issue, oks_system_call_issue, Out, ok, err, [],
}
use okssystem.Calls.{Forked, in_child, in_parent, no_child, SpawnCalls, IoCalls}
use okssystem.StringMemoryArea.Maps.{StrMap}
use okssystem.Process.{Process, sigterm}
use okssystem.Executable.{Executable, Program, Exec, becomes, throws, exec, exec_env, to_string}

abbrev pub sigint : ℕ
sigint = 2

abbrev pub sigcld : ℕ
sigcld = 17

-- The mask of all signals, as `sigfillset` sets it.
abbrev pub all_signals : ℕ
all_signals = 2 ^ 64 - 1

abbrev pub exit_failure : ℕ
exit_failure = 1

-- The end of a child in this program: it has become another program, or has exited.
pub data Child (W : Type 0) : Type 0 where
  runs : Program → W → Child W
  exits : ℕ → W → Child W

-- What a method that forks comes to: in the parent it returns or throws, as every method does, and
-- leaves a state S.
pub data Run (W S A : Type 0) : Type 0 where
  parent : Out S A → Run W S A
  child : Child W → Run W S A

module _ {W : Type 0} (spawn : SpawnCalls W) (io : IoCalls W) where
  -- The two `catch` clauses around `exec`.
  abbrev pub exec_or_exit : Exec W → Child W
  exec_or_exit (becomes program w) = runs program w
  exec_or_exit (throws issue w) = exits exit_failure (io.warning issue w)

  -- `pthread_sigmask(SIG_SETMASK, &old_set, NULL)`
  abbrev pub restore_mask : ℕ → W → W
  restore_mask old_set w = (spawn.sigmask old_set w).1

  -- SIGTERM and SIGINT get their defaults in the child.
  abbrev pub default_signals : W → W
  default_signals w = spawn.set_default sigint (spawn.set_default sigterm w)

  abbrev pub fork_issue : ℕ → Issue
  fork_issue errno = oks_system_call_issue errno (codes "fork") []

  -- `start` and `start_and_forget` from the call of `fork` on: what the child does before its mask is
  -- restored, what it executes, and the name of the process object.
  abbrev pub after_fork : ℕ → (W → W) → (W → Exec W) → Text → Forked → W → Run W W Process
  after_fork old_set prepare run name in_child w =
      child (exec_or_exit (run (restore_mask old_set (prepare w))))
  after_fork old_set prepare run name (in_parent id) w =
      parent (ok (record { m_process_id = pos id; m_process_name = name }) (restore_mask old_set w))
  after_fork old_set prepare run name (no_child errno) w =
      parent (err (fork_issue errno) (restore_mask old_set w))

  abbrev pub forked : ℕ → (W → W) → (W → Exec W) → Text → W → Run W W Process
  forked old_set prepare run name w =
      let (answer, w') = spawn.fork w in after_fork old_set prepare run name answer w'

  -- `start(const param_collection &)`
  unfoldable pub start : Executable → List Text → W → Run W W Process
  unfolding exec to_string
  start e params w =
      let (old_set, w') = spawn.sigmask all_signals w in
      forked old_set default_signals (exec spawn e params) (to_string e params) w'

  -- `start_and_forget`: SIGCLD stays ignored in the parent.
  unfoldable pub start_and_forget : Executable → List Text → W → Run W W Process
  unfolding exec to_string
  start_and_forget e params w =
      let (old_set, w') = spawn.sigmask all_signals w in
      forked old_set (λ v. spawn.set_default sigcld (default_signals v)) (exec spawn e params)
        (to_string e params) (spawn.set_ignored sigcld w')

  -- `start(const param_collection &, const env_collection &)`: the process gets no name.
  unfoldable pub start_env : Executable → List Text → StrMap → W → Run W W Process
  unfolding exec_env
  start_env e params envs w =
      let (old_set, w') = spawn.sigmask all_signals w in
      forked old_set default_signals (exec_env spawn e params envs) [] w'

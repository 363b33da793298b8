-- ===== src/Executable/Pipes.antt =====
-- src/Executable.cpp: `pipe_in`, which runs a program, waits for its end and gives its output.
use okssystem.Prelude.{
  ℕ, zero, suc, false, if◌then◌else◌, leb, List, [], ◌∷◌, ◌++◌, length, Text, codes, ℤ, pos,
  is_zero, Issue, oks_system_call_issue, execution_issue, stack_overflow, M, ok, err, ◌>>=◌, ◌>>◌,
}
use okssystem.Calls.{
  done, failed, Forked, in_child, in_parent, no_child, SpawnCalls, IoCalls, ProcessCalls, UserCalls,
  FileCalls, EnvironmentCalls,
}
use okssystem.StringMemoryArea.Maps.{StrMap}
use okssystem.File.Object.{File}
use okssystem.File.Names.{first_line}
use okssystem.Process
use okssystem.Process.{Process, State}
use okssystem.Environment.{set_all}
use okssystem.Executable.{
  executable_of_name, Executable, exec, to_string, shell_command, shell_command_param,
}
use okssystem.Executable.Start.{
  Run, parent, child, all_signals, exec_or_exit, restore_mask, default_signals,
}

abbrev pub file_command_path : Text
file_command_path = codes "/usr/bin/file"

abbrev pub buffer_size : ℕ
buffer_size = 256

-- The two ends of a pipe.
abbrev pub Ends : Type 0
Ends = ℤ × ℤ

-- A call that knows nothing of `s_instance`, in a method that does.
abbrev pub on_world : {W A : Type 0} → M W A → M (State W) A
on_world m s = Process.lifted s.s_instance (m s.world)

abbrev pub change_world : {W : Type 0} → (W → W) → M (State W) (Unit {0})
change_world f s = ok tt (record s { world = f s.world })

module _ {W : Type 0} (io : IoCalls W) where
  -- The loop of `copy_fd`, also behind a read that fails. The first argument bounds the rounds.
  unfoldable pub copy_fd : ℕ → ℤ → Text → M W Text
  copy_fd zero fd target w = err stack_overflow w
  copy_fd (suc rounds) fd target w =
      let (status, w') = io.read fd buffer_size w in
      elim status [
        | failed errno ↦ ok target w'
        | done [] ↦ ok target w'
        | done (x ∷ buffer) ↦
            if leb (length (x ∷ buffer)) buffer_size
            then copy_fd rounds fd (target ++ (x ∷ buffer)) w'
            else err Issue.assertion w'
      ]

  -- `close` of <unistd.h>, where the result is not looked at.
  abbrev pub close_end : ℤ → W → W
  close_end fd w = (io.close fd w).1

  abbrev pub close_three : ℤ → ℤ → ℤ → W → W
  close_three a b c w = close_end c (close_end b (close_end a w))

module _ {W : Type 0} (spawn : SpawnCalls W) (io : IoCalls W) (calls : ProcessCalls W) where
  unfoldable pub make_pipe : M W Ends
  make_pipe w =
      let (status, w') = spawn.pipe w in
      elim status [
        | done ends ↦ ok ends w'
        | failed errno ↦ err (oks_system_call_issue errno (codes "pipe") []) w'
      ]

  -- `dup2` of the three write ends, also for the standard input.
  abbrev pub child_ends : Ends → Ends → Ends → W → W
  child_ends input_pipe data_pipe error_pipe w =
      spawn.dup2 error_pipe.1 (pos 2)
        (spawn.dup2 data_pipe.1 (pos 1) (spawn.dup2 input_pipe.1 (pos 0) w))

  -- The end of the parent: the text of `out_stream`, or the issue.
  abbrev pub command_result : Executable → List Text → ℤ → Text → M W Text
  command_result e params child_status out_stream w =
      if is_zero child_status
      then ok out_stream w
      else err (execution_issue (spawn.errno w) (to_string e params) child_status) w

  -- The parent: it waits for the child before it reads from the pipes. The first argument bounds
  -- the rounds of the three calls of `copy_fd`.
  unfoldable pub collect_output :
      ℕ → Executable → List Text → Process → Ends → Ends → Ends → M (State W) Text
  unfolding to_string Process.join copy_fd
  collect_output rounds e params child_process input_pipe data_pipe error_pipe = do
    change_world (close_three io input_pipe.1 data_pipe.1 error_pipe.1)
    child_status ← Process.join calls child_process false
    in_stream ← on_world (copy_fd io rounds input_pipe.0 [])
    out_stream ← on_world (copy_fd io rounds data_pipe.0 [])
    err_stream ← on_world (copy_fd io rounds error_pipe.0 [])
    change_world (close_three io input_pipe.0 data_pipe.0 error_pipe.0)
    on_world (command_result e params child_status out_stream)

  -- `pipe_in` behind the call of `fork`. A `fork` that fails gives the empty text.
  unfoldable pub after_fork_piped :
      ℕ → Executable → List Text → Ends → Ends → Ends → ℕ → Forked → State W → Run W (State W) Text
  unfolding collect_output to_string exec
  after_fork_piped rounds e params input_pipe data_pipe error_pipe old_set in_child s = child (
      exec_or_exit spawn io (
        exec spawn e params (
          child_ends input_pipe data_pipe error_pipe
            (restore_mask spawn io old_set (default_signals spawn io s.world)))))
  after_fork_piped rounds e params input_pipe data_pipe error_pipe old_set (in_parent id) s =
      parent (
        collect_output rounds e params
          (record { m_process_id = pos id; m_process_name = to_string e params }) input_pipe
          data_pipe error_pipe (record s { world = restore_mask spawn io old_set s.world }))
  after_fork_piped rounds e params input_pipe data_pipe error_pipe old_set (no_child errno) s =
      parent (ok [] (record s { world = restore_mask spawn io old_set s.world }))

  -- `pipe_in` from the call of `pthread_sigmask` on.
  unfoldable pub run_piped :
      ℕ → Executable → List Text → Ends → Ends → Ends → State W → Run W (State W) Text
  unfolding after_fork_piped
  run_piped rounds e params input_pipe data_pipe error_pipe s =
      let (old_set, w1) = spawn.sigmask all_signals s.world in
      let (answer, w) = spawn.fork w1 in
      after_fork_piped rounds e params input_pipe data_pipe error_pipe old_set answer
        (record s { world = w })

  -- What follows a call that may throw before the process forks.
  abbrev pub then_run :
      {A B : Type 0}
      → M (State W) A
      → (A → State W → Run W (State W) B)
      → State W
      → Run W (State W) B
  then_run m k s = elim (m s) [ ok a s' ↦ k a s' | err e s' ↦ parent (err e s') ]

  -- `pipe_in(const param_collection &)`
  unfoldable pub pipe_in : ℕ → Executable → List Text → State W → Run W (State W) Text
  unfolding make_pipe run_piped
  pipe_in rounds e params = then_run (on_world make_pipe) λ input_pipe.
      then_run (on_world make_pipe) λ data_pipe.
        then_run (on_world make_pipe)
          λ error_pipe. run_piped rounds e params input_pipe data_pipe error_pipe

  -- `pipe_in(const param_collection &, const env_collection &)`: the variables are set in the parent.
  unfoldable pub pipe_in_env :
      EnvironmentCalls W → ℕ → Executable → List Text → StrMap → State W → Run W (State W) Text
  unfolding pipe_in set_all
  pipe_in_env environment rounds e params envs =
      then_run (on_world (set_all environment envs)) λ u. pipe_in rounds e params

  -- `okssystem`
  unfoldable pub okssystem_command :
      UserCalls W → FileCalls W → ℕ → Text → State W → Run W (State W) Text
  unfolding pipe_in executable_of_name
  okssystem_command users files rounds command =
      then_run (on_world (executable_of_name users files shell_command))
        λ shell. pipe_in rounds shell (shell_command_param ∷ command ∷ [])

  -- What is made of the text that a run gives.
  abbrev pub on_text : (Text → Text) → Run W (State W) Text → Run W (State W) Text
  on_text f (parent (ok text s)) = parent (ok (f text) s)
  on_text f (parent (err e s)) = parent (err e s)
  on_text f (child c) = child c

  -- `File::file_type` of src/File.cpp
  unfoldable pub file_type : UserCalls W → FileCalls W → ℕ → File → State W → Run W (State W) Text
  unfolding pipe_in executable_of_name first_line
  file_type users files rounds f =
      then_run (on_world (executable_of_name users files file_command_path)) λ file_command s.
        on_text first_line (pipe_in rounds file_command (codes "-b" ∷ f.full_name ∷ []) s)

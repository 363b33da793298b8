-- ===== src/Executable/Output/Commands.antt =====
-- `pipe_in` and `okssystem` in the parent, from the first pipe to the result.
use okssystem.Prelude.{
  ℕ, ◌<◌, ◌≡◌, ◌≢◌, ◌⊎◌, refl, ◌∙◌, Bool, arith, List, [], ◌∷◌, length, Text, ℤ, pos, Issue, Out,
  ok, err, M,
}
use okssystem.Calls.{done, in_parent, SpawnCalls, IoCalls, ProcessCalls, UserCalls, FileCalls}
use okssystem.File.Copies.{file_of_absolute}
use okssystem.Process.{Process, State}
use okssystem.Executable.{
  Executable, to_string, executable_of_name, shell_command, shell_command_param,
}
use okssystem.Executable.Start.{Run, parent, all_signals, restore_mask}
use okssystem.Executable.Pipes.{
  on_world, then_run, Ends, make_pipe, collect_output, pipe_in, run_piped, after_fork_piped,
  okssystem_command,
}
use okssystem.Executable.Output.{IsPipes}
use okssystem.Executable.Output.Collected.{
  waited_world, joined_child, Collected, Abandoned, collect_output_outcome,
}

-- The three pipes that `pipe_in` makes, and a `fork` that answers as it does in the parent.
pub record Forks {W : Type 0} (spawn : SpawnCalls W) (io : IoCalls W) (start : W) : Type 0 where
  pub input : Ends
  pub data_pipe : Ends
  pub error : Ends
  pub id : ℕ
  pub first : W
  pub second : W
  pub third : W
  pub forked : W
  pub makes_input : spawn.pipe start ≡ (done input, first)
  pub makes_data : spawn.pipe first ≡ (done data_pipe, second)
  pub makes_error : spawn.pipe second ≡ (done error, third)
  pub forks : spawn.fork (spawn.sigmask all_signals third).1 ≡ (in_parent id, forked)
  pub data_ne_input : data_pipe.0 ≢ input.0
  pub error_ne_input : error.0 ≢ input.0
  pub error_ne_data : error.0 ≢ data_pipe.0

module _ {W : Type 0} (spawn : SpawnCalls W) (io : IoCalls W) (calls : ProcessCalls W) where
  then_run-ok :
      {A B : Type 0} (m : M (State W) A) (k : A → State W → Run W (State W) B) (s t : State W)
      (a : A)
      → m s ≡ ok a t
      → then_run spawn io calls m k s ≡ k a t
  then_run-ok m k s t a e = rw (e, then_run) refl

  -- A `pipe` that succeeds, and what is done with its ends.
  make_pipe_done :
      {B : Type 0} (k : Ends → State W → Run W (State W) B) (s : State W) (w : W) (ends : Ends)
      → spawn.pipe s.world ≡ (done ends, w)
      → then_run spawn io calls (on_world (make_pipe spawn io calls)) k s
        ≡ k ends (record s { world = w })
  unfolding make_pipe
  make_pipe_done k s w ends e =
      then_run-ok (on_world (make_pipe spawn io calls)) k s (record s { world = w }) ends
        (ground (arith, e))

  -- The child as `pipe_in` names it, and the parent behind the call of `fork`.
  abbrev pub child_of : Executable → List Text → {start : W} → Forks spawn io start → Process
  child_of e params f = record { m_process_id = pos f.id; m_process_name = to_string e params }

  abbrev pub parent_of : (s : State W) → Forks spawn io s.world → State W
  parent_of s f = record s {
    world = restore_mask spawn io (spawn.sigmask all_signals f.third).0 f.forked;
  }

  run_piped-parent :
      (rounds : ℕ) (e : Executable) (params : List Text) (s : State W) (f : Forks spawn io s.world)
      → run_piped spawn io calls rounds e params f.input f.data_pipe f.error
          (record s { world = f.third })
        ≡ parent (
            collect_output spawn io calls rounds e params
              (child_of e params f)
              f.input
              f.data_pipe
              f.error
              (parent_of s f))
  unfolding run_piped after_fork_piped
  run_piped-parent rounds e params s f = ground (arith, f.forks)

  pipe_in-parent :
      (rounds : ℕ) (e : Executable) (params : List Text) (s : State W) (f : Forks spawn io s.world)
      → pipe_in spawn io calls rounds e params s
        ≡ parent (
            collect_output spawn io calls rounds e params
              (child_of e params f)
              f.input
              f.data_pipe
              f.error
              (parent_of s f))
  unfolding pipe_in
  pipe_in-parent rounds e params s f =
      let pipe = on_world (make_pipe spawn io calls) in
      let run = run_piped spawn io calls rounds e params in
      make_pipe_done (λ a. then_run spawn io calls pipe λ b. then_run spawn io calls pipe (run a b))
        s f.first f.input f.makes_input
      ∙ make_pipe_done (λ b. then_run spawn io calls pipe (run f.input b))
          (record s { world = f.first }) f.second f.data_pipe f.makes_data
      ∙ make_pipe_done (run f.input f.data_pipe) (record s { world = f.second }) f.third f.error
          f.makes_error
      ∙ run_piped-parent rounds e params s f

  -- `okssystem` is `pipe_in` of the shell, with the command as its parameter.
  okssystem_command_shell :
      (users : UserCalls W) (files : FileCalls W) (rounds : ℕ) (command : Text) (s : State W)
      → (shell : Executable) × (executable_of_name users files shell_command s.world
          ≡ ok shell s.world)
        × (okssystem_command spawn io calls users files rounds command s
            ≡ pipe_in spawn io calls rounds shell (shell_command_param ∷ command ∷ []) s)
  unfolding okssystem_command executable_of_name
  okssystem_command_shell users files rounds command s =
      let (f, made) = file_of_absolute users files shell_command s.world refl in
      let named : executable_of_name users files shell_command s.world
          ≡ ok (record { file = f }) s.world =
        rw (made, executable_of_name) refl in
      let shell : Executable = record { file = f } in
      (
        shell,
        named,
        then_run-ok (on_world (executable_of_name users files shell_command))
            (λ e. pipe_in spawn io calls rounds e (shell_command_param ∷ command ∷ [])) s s shell
            (ground (arith, named)),
      )

  module _ (content : ℤ → W → Text) (is_open : ℤ → W → Bool)
      (laws : IsPipes io content is_open) where
    -- What the pipes hold when the child has been waited for, and the rounds are enough for it.
    abbrev pub left_at : Executable → List Text → (s : State W) → Forks spawn io s.world → ℤ → Text
    left_at e params s f fd = content fd (
        waited_world spawn io calls content is_open laws (child_of e params f) f.input f.data_pipe
          f.error (parent_of s f).world)

    -- The two ends of `collect_output`.
    abbrev pub CommandEnds :
        Executable
        → List Text
        → (s : State W) → Forks spawn io s.world
        → Out (State W) Text
        → Type 0
    CommandEnds e params s f result =
        ((child_status : ℤ) × (s2 : State W) × (joined_child spawn io calls content is_open laws
              (child_of e params f) f.input f.data_pipe f.error (parent_of s f)
            ≡ ok child_status s2)
          × Collected spawn io calls content is_open laws e params f.input f.data_pipe f.error
              (left_at e params s f f.data_pipe.0) child_status result)
        ⊎ ((issue : Issue) × (s2 : State W) × (joined_child spawn io calls content is_open laws
                (child_of e params f) f.input f.data_pipe f.error (parent_of s f)
              ≡ err issue s2)
            × Abandoned spawn io calls content is_open laws f.input f.data_pipe f.error issue
                (parent_of s f) result)

    -- In the parent (`Forks`), if the descriptors behave as pipes whose writers have ended
    -- (`IsPipes`), `waitpid` leaves the descriptors alone, and no pipe holds as many bytes as there
    -- are rounds, `okssystem` runs the shell with the command as its parameter and comes to one of
    -- two ends. The shell is joined: the result is the whole text of its standard output if its
    -- status is 0, and an `ExecutionIssue` with the command line and the status if not, and all six
    -- ends of the pipes are closed. Or `join` throws: the issue passes, the write ends are closed,
    -- and every other descriptor is as open as behind the fork, the three read ends too.
    pub okssystem_outcome :
        (users : UserCalls W) (files : FileCalls W) (rounds : ℕ) (command : Text) (s : State W)
        (f : Forks spawn io s.world)
        → ((pid fd : ℤ) (w : W) → is_open fd (calls.waitpid pid w).1 ≡ is_open fd w)
        → ((shell : Executable)
            → let left = left_at shell (shell_command_param ∷ command ∷ []) s f in
              (length (left f.input.0) < rounds)
              × (length (left f.data_pipe.0) < rounds)
              × (length (left f.error.0) < rounds))
        → (shell : Executable) × (result : Out (State W) Text) × (executable_of_name users files
              shell_command s.world
            ≡ ok shell s.world)
          × (okssystem_command spawn io calls users files rounds command s ≡ parent result)
          × CommandEnds shell (shell_command_param ∷ command ∷ []) s f result
    okssystem_outcome users files rounds command s f quiet enough =
        let (shell, named, runs) = okssystem_command_shell users files rounds command s in
        let params = shell_command_param ∷ command ∷ [] in
        let child = child_of shell params f in
        (
          shell,
          collect_output spawn io calls rounds shell params child f.input f.data_pipe f.error
              (parent_of s f),
          named,
          runs ∙ pipe_in-parent rounds shell params s f,
          collect_output_outcome spawn io calls content is_open laws rounds shell params child
              f.input f.data_pipe f.error (parent_of s f) f.data_ne_input f.error_ne_input
              f.error_ne_data quiet (enough shell).0 (enough shell).1 (enough shell).2,
        )

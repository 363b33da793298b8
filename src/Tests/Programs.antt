-- ===== src/Tests/Programs.antt =====
-- Programs that are started, in the system with a signal mask.
use okssystem.Prelude.{
  map, ◌≢◌, Out, Text, [], ◌∷◌, ◌≡◌, refl, none, some, arith, codes, ok, pos, print_integer,
}
use okssystem.StringMemoryArea.{c_str}
use okssystem.Process.{Process, State}
use okssystem.Executable.{
  exec, exec_env, env_array, Executable, shell_command, shell_command_param, executable_of_name,
}
use okssystem.Executable.Arguments.{
  Executes, program_of, read_env, all_some, read_env-env_array, exec-Executes,
}
use okssystem.Executable.Mask.{AtEnd, start-mask}
use okssystem.Executable.Mask.Piped.{KeepsMask, HasMask, pipe_in-HasMask}
use okssystem.Executable.Mask.Redirected.{Redirects, pipe_out-mask}
use okssystem.Executable.Output.{copy_fd_lem, ReadOnly}
use okssystem.Executable.Start.{all_signals, parent, start, start_and_forget, start_env}
use okssystem.Executable.Redirect.{pipe_out, pipe_out_env}
use okssystem.Executable.Pipes.{okssystem_command, pipe_in, copy_fd, Ends}
use okssystem.Executable.Output.Commands.{Forks, CommandEnds, okssystem_outcome}
use okssystem.OksSystemTest.{test_exec}
use okssystem.OksSystemTest.Status.{Tested, test_exec-Tested}
use okssystem.Tests.World.{bare_users, bare_files}
use okssystem.Tests.Machine.{
  Machine, pipe_fd, content, is_open, io, spawn, calls, machine-IsMask, machine-IsPipes,
  sort_program, reverse, variables, ready, null_file,
}

start-mask_example :
    AtEnd (λ (v : Machine). v.mask ≡ 4) (start spawn io sort_program reverse ready)
    × AtEnd (λ (v : Machine). v.mask ≡ 4) (start_and_forget spawn io sort_program reverse ready)
    × AtEnd (λ (v : Machine). v.mask ≡ 4) (start_env spawn io sort_program reverse variables ready)
start-mask_example =
    start-mask spawn io (λ w. w.mask) machine-IsMask sort_program reverse variables ready

pipe_out-mask_example :
    Redirects spawn io
      (λ w. w.mask)
      machine-IsMask
      ready
      (pipe_out bare_users bare_files spawn io sort_program reverse null_file null_file null_file
        0o644 ready)
    × Redirects spawn io
        (λ w. w.mask)
        machine-IsMask
        ready
        (pipe_out_env bare_users bare_files spawn io sort_program reverse variables null_file
          null_file null_file 0o644 ready)
pipe_out-mask_example =
    pipe_out-mask spawn io (λ w. w.mask) machine-IsMask bare_users bare_files sort_program reverse
      variables null_file null_file null_file 0o644 ready

read_env-env_array_example : read_env (env_array variables) ≡ all_some variables
read_env-env_array_example = read_env-env_array variables (omega arith)

abbrev path_text : Text
unfolding c_str
path_text = c_str sort_program.file.full_name

exec-Executes_example :
    Executes
      (program_of sort_program reverse none)
      (spawn.execv path_text (path_text ∷ map c_str reverse) ready)
      ready
      (exec spawn sort_program reverse ready)
    × Executes
        (program_of sort_program reverse (some (env_array variables)))
        (spawn.execve path_text (path_text ∷ map c_str reverse) (env_array variables) ready)
        ready
        (exec_env spawn sort_program reverse variables ready)
exec-Executes_example =
    exec-Executes spawn sort_program reverse variables ready (λ size. refl) (λ s. refl)

copy_fd_lem_example :
    (w' : Machine) × (copy_fd io 5 pipe_fd (codes "is ") ready ≡ ok (codes "is done") w')
    × ReadOnly io content is_open machine-IsPipes pipe_fd ready w'
copy_fd_lem_example =
    copy_fd_lem io content is_open machine-IsPipes 5 pipe_fd (codes "is ") ready (omega arith)

abbrev sorted : Process
sorted = record { m_process_id = pos 6; m_process_name = codes "sort" }

abbrev input_ends : Ends
input_ends = (pos 3, pos 4)

abbrev data_ends : Ends
data_ends = (pipe_fd, pos 6)

abbrev error_ends : Ends
error_ends = (pos 7, pos 8)

abbrev parent_state : State Machine
parent_state = record { world = ready; s_instance = none }

data_ne_input : data_ends.0 ≢ input_ends.0
data_ne_input e = ground arith

error_ne_input : error_ends.0 ≢ input_ends.0
error_ne_input e = ground arith

error_ne_data : error_ends.0 ≢ data_ends.0
error_ne_data e = ground arith

abbrev forks : Forks spawn io ready
forks = record {
  input = input_ends;
  data_pipe = data_ends;
  error = error_ends;
  id = 6;
  first = record ready { pipes = 1 };
  second = record ready { pipes = 2 };
  third = record ready { pipes = 3 };
  forked = record ready { pipes = 3; mask = all_signals };
  makes_input = refl;
  makes_data = refl;
  makes_error = refl;
  forks = refl;
  data_ne_input = data_ne_input;
  error_ne_input = error_ne_input;
  error_ne_data = error_ne_data;
}

okssystem_outcome_example :
    (shell : Executable) × (result : Out (State Machine) Text) × (executable_of_name bare_users
        bare_files shell_command ready
      ≡ ok shell ready)
    × (okssystem_command spawn io calls bare_users bare_files 9 (codes "sort -r") parent_state
        ≡ parent result)
    × CommandEnds spawn io calls content is_open machine-IsPipes shell
        (shell_command_param ∷ codes "sort -r" ∷ [])
        parent_state
        forks
        result
okssystem_outcome_example =
    okssystem_outcome spawn io calls content is_open machine-IsPipes bare_users bare_files 9
      (codes "sort -r") parent_state forks (λ pid fd w. refl)
      (λ shell. (omega arith, omega arith, omega arith))

test_exec-Tested_example :
    Tested calls
      (λ w. w.mask)
      4
      (program_of sort_program (codes "0" ∷ []) none)
      (start spawn io sort_program (codes "0" ∷ []) ready)
      (test_exec spawn io calls sort_program (pos 0) parent_state)
unfolding print_integer
test_exec-Tested_example =
    test_exec-Tested calls (λ w. w.mask) (λ pid w. refl) (λ status h. absurd (cc)) spawn io
      machine-IsMask (λ size w. refl) (λ s w. refl) sort_program (pos 0) parent_state

machine-KeepsMask : KeepsMask spawn io calls (λ w. w.mask)
machine-KeepsMask = record {
  pipe_keeps = λ w. refl;
  read_keeps = λ fd n w. refl;
  waitpid_keeps = λ pid w. refl;
}

pipe_in-HasMask_example :
    HasMask spawn io calls
      (λ w. w.mask)
      machine-IsMask
      machine-KeepsMask
      4
      (pipe_in spawn io calls 9 sort_program reverse parent_state)
pipe_in-HasMask_example =
    pipe_in-HasMask spawn io calls (λ w. w.mask) machine-IsMask machine-KeepsMask 9 sort_program
      reverse parent_state

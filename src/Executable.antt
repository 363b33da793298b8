-- ===== src/Executable.antt =====
-- src/Executable.cpp: a program file, and the calls of `execv` and `execve`.
pub mod Start
pub mod Pipes
pub mod Redirect
pub mod Arguments
pub mod Started
pub mod Mask
pub mod Output
use okssystem.Prelude.{
  ℕ, ◌+◌, ◌*◌, Bool, true, false, if◌then◌else◌, Option, none, some, List, [], ◌∷◌, ◌++◌, length,
  Text, codes, ℤ, negsuc, Issue, alloc_issue, execution_issue, M, ok, err, pure, ◌>>=◌,
}
use okssystem.Calls.{Answer, done, failed, SpawnCalls, UserCalls, FileCalls}
use okssystem.StringMemoryArea.{c_str}
use okssystem.StringMemoryArea.Maps.{StrMap}
use okssystem.File.Object
use okssystem.File.Object.{File}
use okssystem.File.Copies.{copy_file}

abbrev pub shell_command : Text
shell_command = codes "/bin/sh"

abbrev pub shell_command_param : Text
shell_command_param = codes "-c"

-- The class: it has the fields of `File` alone.
pub record Executable : Type 0 where
  pub file : File

-- `Executable(const File &)`
unfoldable pub executable_of_file : {W : Type 0} → UserCalls W → FileCalls W → File → M W Executable
unfolding copy_file
executable_of_file users files other = do
  f ← copy_file users files other
  pure (record { file = f })

-- The other two constructors
unfoldable pub executable_of_name : {W : Type 0} → UserCalls W → FileCalls W → Text → M W Executable
unfolding Object.file
executable_of_name users files filename = do
  f ← Object.file users files filename
  pure (record { file = f })

-- The loop of `to_string` over the parameters.
unfoldable pub write_params : List Text → Text → Text
write_params [] stream = stream
write_params (p ∷ params) stream = write_params params (stream ++ (b' ' ∷ p))

unfoldable pub to_string : Executable → List Text → Text
unfolding write_params
to_string e params = write_params params e.file.full_name

-- What a process becomes: the path, the arguments and the environment, `none` if it keeps its own.
pub record Program : Type 0 where
  pub path : Text
  pub argv : List Text
  pub envp : Option (List Text)

-- `exec` does not return: the process becomes a program, or an issue is thrown.
pub data Exec (W : Type 0) : Type 0 where
  becomes : Program → W → Exec W
  throws : Issue → W → Exec W

-- An array of pointers up to the first null pointer.
abbrev pub up_to_null : List (Option Text) → List Text
up_to_null [] = []
up_to_null (none ∷ ps) = []
up_to_null (some p ∷ ps) = p ∷ up_to_null ps

-- One entry of the environment: `it->first + "=" + it->second`
unfoldable pub env_entry : Text × Text → Text
env_entry (key, value) = key ++ (codes "=" ++ value)

-- The copies that `strcpy` makes of the entries.
unfoldable pub env_array : StrMap → List Text
unfolding env_entry c_str
env_array [] = []
env_array (entry ∷ envs) = c_str (env_entry entry) ∷ env_array envs

unfoldable pub param_array : List Text → List Text
unfolding c_str
param_array [] = []
param_array (p ∷ params) = c_str p ∷ param_array params

module _ {W : Type 0} (spawn : SpawnCalls W) where
  abbrev after_exec : Program → Answer (Unit {0}) → W → Exec W
  after_exec program (done a) w = becomes program w
  after_exec program (failed errno) w = throws (execution_issue errno program.path (negsuc 0)) w

  -- `exec(char **argv)`
  unfoldable pub exec_argv : List Text → W → Exec W
  exec_argv [] w = throws Issue.assertion w
  exec_argv (name ∷ args) w =
      after_exec (record { path = name; argv = name ∷ args; envp = none })
        (spawn.execv name (name ∷ args) w) w

  -- `exec(char **argv, char **env)`
  unfoldable pub exec_argv_env : List Text → List Text → W → Exec W
  exec_argv_env [] env w = throws Issue.assertion w
  exec_argv_env (name ∷ args) env w =
      after_exec (record { path = name; argv = name ∷ args; envp = some env })
        (spawn.execve name (name ∷ args) env w) w

  -- The loop of `exec` over the parameters; a copy that fails is a null pointer.
  abbrev copy_params : List Text → W → List (Option Text)
  copy_params [] w = []
  copy_params (p ∷ params) w = spawn.strdup (c_str p) w ∷ copy_params params w

  -- `exec(const param_collection &)`; a pointer has 8 bytes.
  unfoldable pub exec : Executable → List Text → W → Exec W
  unfolding c_str exec_argv
  exec e params w =
      let size = 8 * (length params + 2) in
      let name = c_str e.file.full_name in
      if spawn.calloc size w
      then elim (spawn.strdup name w) [
        | none ↦ throws (alloc_issue (spawn.errno w) (length name)) w
        | some copy ↦ exec_argv (copy ∷ up_to_null (copy_params params w)) w
      ]
      else throws (alloc_issue (spawn.errno w) size) w

  -- `exec(const param_collection &, const env_collection &)`; `new` is taken to succeed.
  unfoldable pub exec_env : Executable → List Text → StrMap → W → Exec W
  unfolding c_str exec_argv_env env_array param_array
  exec_env e params envs w =
      exec_argv_env (c_str e.file.full_name ∷ param_array params) (env_array envs) w

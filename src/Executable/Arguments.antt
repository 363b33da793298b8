-- ===== src/Executable/Arguments.antt =====
-- What a program that is executed gets: its arguments and its environment.
use okssystem.Prelude.{
  ℕ, ◌≡◌, ◌≢◌, refl, true, Option, none, some, List, [], ◌∷◌, ◌++◌, ◌+◌, ◌*◌, suc, take-append,
  arith, length, take, drop, All, All-append, Lacks, Text, find, find-append, negsuc,
  execution_issue, map, ap,
}
use okssystem.Calls.{Answer, done, failed, SpawnCalls}
use okssystem.StringMemoryArea.{c_str}
use okssystem.StringMemoryArea.Memory.{c_str_of_Lacks}
use okssystem.StringMemoryArea.Maps.{StrMap}
use okssystem.Executable.{
  Executable, Program, Exec, becomes, throws, exec, exec_env, after_exec, copy_params, exec_argv,
  exec_argv_env, env_entry, env_array, param_array, up_to_null,
}

abbrev pub equals_char : ℕ
equals_char = b'='

abbrev split_at : Text → Option ℕ → Option (Text × Text)
split_at entry none = none
split_at entry (some i) = some (take i entry, drop (suc i) entry)

-- How a program reads an entry of its environment: up to the first `=`, and behind it.
abbrev pub read_env_entry : Text → Option (Text × Text)
read_env_entry entry = split_at entry (find equals_char entry)

abbrev pub read_env : List Text → List (Option (Text × Text))
read_env [] = []
read_env (entry ∷ entries) = read_env_entry entry ∷ read_env entries

abbrev pub all_some : StrMap → List (Option (Text × Text))
all_some [] = []
all_some (entry ∷ envs) = some entry ∷ all_some envs

-- A variable: C strings, and a key without `=`.
abbrev pub IsVariable : Text × Text → Type 0
IsVariable (key, value) = Lacks 0 key × Lacks 0 value × Lacks equals_char key

-- The part behind a byte in the middle.
drop-append_suc : (s t : Text) (c : ℕ) → drop (suc (length s)) (s ++ c ∷ t) ≡ t
drop-append_suc [] t c = refl
drop-append_suc (x ∷ s) t c = drop-append_suc s t c

read_env_entry-append :
    (key value : Text)
    → Lacks equals_char key
    → read_env_entry (key ++ equals_char ∷ value) ≡ some (key, value)
read_env_entry-append key value h =
    rw (find-append equals_char key value h)
      (rw (take-append key (equals_char ∷ value), drop-append_suc key value equals_char) refl)

c_str-env_entry :
    (key value : Text)
    → IsVariable (key, value)
    → c_str (env_entry (key, value)) ≡ key ++ equals_char ∷ value
unfolding env_entry
c_str-env_entry key value (hk, hv, he) =
    c_str_of_Lacks (key ++ equals_char ∷ value)
      (All-append (λ (x : ℕ). x ≢ 0) key (equals_char ∷ value) hk ((omega arith), hv))

-- What `exec` makes of the map of variables is read by the program as the map: each variable with its
-- value, in the order of the map, if the keys hold no `=` and no text a NUL.
pub read_env-env_array :
    (envs : StrMap) → All IsVariable envs → read_env (env_array envs) ≡ all_some envs
unfolding env_array
read_env-env_array [] h = refl
read_env-env_array ((key, value) ∷ envs) (hv, h) =
    rw (c_str-env_entry key value hv)
      (rw (read_env_entry-append key value hv.2, read_env-env_array envs h) refl)

-- The program that an executable and its parameters ask for.
abbrev pub program_of : Executable → List Text → Option (List Text) → Program
unfolding c_str
program_of e params env = record {
  path = c_str e.file.full_name;
  argv = c_str e.file.full_name ∷ map c_str params;
  envp = env;
}

-- The end of an `exec` of a program for which the call gave this answer.
abbrev pub Executes : {W : Type 0} → Program → Answer (Unit {0}) → W → Exec W → Type 0
Executes program (done u) w x = x ≡ becomes program w
Executes program (failed errno) w x = x ≡ throws (execution_issue errno program.path (negsuc 0)) w

param_array-map : (params : List Text) → param_array params ≡ map c_str params
unfolding param_array
param_array-map [] = refl
param_array-map (p ∷ params) = ap (λ ps. c_str p ∷ ps) (param_array-map params)

module _ {W : Type 0} (spawn : SpawnCalls W) where
  after_exec-Executes :
      (program : Program) (a : Answer (Unit {0})) (w : W)
      → Executes program a w (after_exec spawn program a w)
  after_exec-Executes program (done u) w = refl
  after_exec-Executes program (failed errno) w = refl

  up_to_null-copy_params :
      (params : List Text) (w : W)
      → ((s : Text) → spawn.strdup s w ≡ some s)
      → up_to_null (copy_params spawn params w) ≡ map c_str params
  up_to_null-copy_params [] w copies = refl
  up_to_null-copy_params (p ∷ params) w copies =
      rw (copies (c_str p), up_to_null-copy_params params w copies) refl

  -- With memory for the copies, both forms of `exec` make the system call with the name of the file
  -- and, as arguments, this name and then all parameters in their order, as C strings; the second
  -- also with the environment. If the call succeeds the process becomes this program; if it fails,
  -- an `ExecutionIssue` is thrown with the error code of the call, the name and the status -1.
  pub exec-Executes :
      (e : Executable) (params : List Text) (envs : StrMap) (w : W)
      → ((size : ℕ) → spawn.calloc size w ≡ true)
      → ((s : Text) → spawn.strdup s w ≡ some s)
      → (let path = c_str e.file.full_name in
          let argv = path ∷ map c_str params in
          Executes (program_of e params none) (spawn.execv path argv w) w (exec spawn e params w)
          × Executes
              (program_of e params (some (env_array envs)))
              (spawn.execve path argv (env_array envs) w)
              w
              (exec_env spawn e params envs w))
  unfolding exec exec_env exec_argv exec_argv_env
  exec-Executes e params envs w memory copies = (
    rw
        (
          memory (8 * (length params + 2)),
          copies (c_str e.file.full_name),
          up_to_null-copy_params params w copies,
        )
        (after_exec-Executes (program_of e params none) _ w),
    rw (param_array-map params)
        (after_exec-Executes (program_of e params (some (env_array envs))) _ w),
  )

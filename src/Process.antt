-- ===== src/Process.antt =====
-- src/Process.cpp: the names of exit values, and the wrapper of a process with the singleton of the
-- current one.
pub mod ExitText
pub mod Control
use okssystem.Prelude.{
  ℕ, zero, suc, ◌-◌, ◌++◌, Bool, true, false, not, Option, none, some, List, [], ◌∷◌, ◌==◌, ◌&&◌,
  ◌||◌, leb, if◌then◌else◌, get_elem?, Text, codes, is_empty, print_integer, ℤ, pos, negsuc,
  is_zero, Issue, memory_fault, oks_system_call_issue, termination_issue, signal_issue, M, Out, ok,
  err, pure, throw, ensure, ◌>>=◌, ◌>>◌,
}
use okssystem.Calls.{Answer, done, failed, Waited, ProcessCalls, checked}

-- EX__BASE and EX__MAX of <sysexits.h>, SIGTERM of <signal.h>
abbrev pub ex_base : ℕ
ex_base = 64

abbrev pub ex_max : ℕ
ex_max = 78

abbrev pub sigterm : ℕ
sigterm = 15

abbrev pub test_base_value : ℕ
test_base_value = 182

abbrev pub test_max_value : ℕ
test_max_value = 186

abbrev pub sys_exits_names : List Text
sys_exits_names =
    codes "command line usage error"
    ∷ codes "data format error"
    ∷ codes "cannot open input"
    ∷ codes "addressee unknown"
    ∷ codes "host name unknown"
    ∷ codes "service unavailable"
    ∷ codes "internal software error"
    ∷ codes "okssystem error"
    ∷ codes "critical OS file missing"
    ∷ codes "can't create (user) output file"
    ∷ codes "input/output error"
    ∷ codes "temp failure; user is invited to retry"
    ∷ codes "remote error in protocol"
    ∷ codes "permission denied "
    ∷ codes "configuration error"
    ∷ []

abbrev pub test_exits_names : List Text
test_exits_names =
    codes "undefined test"
    ∷ codes "test failed"
    ∷ codes "test unresolved"
    ∷ codes "test untested"
    ∷ codes "unsupported test"
    ∷ []

abbrev pub ok_exit_name : Text
ok_exit_name = codes "ok"

-- A read of a table of names; behind its end there is no memory of its own.
abbrev pub table_entry : {S : Type 0} → List Text → ℕ → M S (Option Text)
table_entry table i s = elim (get_elem? table i) [
  | none ↦ err memory_fault s
  | some text ↦ ok (some text) s
]

-- `none` is the null pointer.
unfoldable pub exit_text : {S : Type 0} → ℤ → M S (Option Text)
exit_text (negsuc n) = pure none
exit_text (pos n) =
    if n == 0
    then pure (some ok_exit_name)
    else if leb ex_base n && leb n ex_max
    then table_entry sys_exits_names (n - ex_base)
    else if leb test_base_value n && leb n test_max_value
    then table_entry test_exits_names (n - test_base_value)
    else pure none

abbrev pretty_text : Option Text → ℤ → Text
pretty_text none return_value = print_integer return_value
pretty_text (some text) return_value = text ++ (b'(' ∷ (print_integer return_value ++ b')' ∷ []))

unfoldable pub exit_pretty : {S : Type 0} → ℤ → M S Text
unfolding exit_text print_integer
exit_pretty return_value = do text ← exit_text return_value; pure (pretty_text text return_value)

pub record Process : Type 0 where
  pub m_process_id : ℤ
  pub m_process_name : Text

-- `equals`, `operator==` and `operator!=`
abbrev pub int_eq : ℤ → ℤ → Bool
int_eq (pos m) (pos n) = m == n
int_eq (negsuc m) (negsuc n) = m == n
int_eq (pos m) (negsuc n) = false
int_eq (negsuc m) (pos n) = false

unfoldable pub same_process : Process → Process → Bool
same_process p other = int_eq p.m_process_id other.m_process_id

abbrev pub not_same_process : Process → Process → Bool
not_same_process p other = not (same_process p other)

-- `Process(pid_t)`
abbrev pub process_of : ℤ → Process
process_of id = record { m_process_id = id; m_process_name = [] }

-- `Process(const Process &)`
abbrev pub copy_process : Process → Process
copy_process other = record {
  m_process_id = other.m_process_id;
  m_process_name = other.m_process_name;
}

unfoldable pub to_string : Process → Text
unfolding print_integer
to_string p =
    (if is_empty p.m_process_name then [] else p.m_process_name ++ b' ' ∷ [])
    ++ (codes "pid: " ++ print_integer p.m_process_id)

-- The static `s_instance`, beside the state of the system.
pub record State (W : Type 0) : Type 0 where
  pub world : W
  pub s_instance : Option Process

abbrev pub lifted : {W A : Type 0} → Option Process → Out W A → Out (State W) A
lifted process (ok a w) = ok a (record { world = w; s_instance = process })
lifted process (err e w) = err e (record { world = w; s_instance = process })

abbrev on_process : Process → Text
on_process p = codes "on process " ++ to_string p

module _ {W : Type 0} (calls : ProcessCalls W) where
  -- `Process()`: the current process, without a name.
  abbrev pub current_process : W → Process
  current_process w = record { m_process_id = calls.getpid w; m_process_name = [] }

  abbrev instance_of : Option Process → W → Process
  instance_of none w = current_process w
  instance_of (some p) w = p

  unfoldable pub instance_process : M (State W) Process
  instance_process s =
      let p = instance_of s.s_instance s.world in ok p (record s { s_instance = some p })

  unfoldable pub set_name : Text → M (State W) (Unit {0})
  unfolding instance_process
  set_name name = do
    p ← instance_process
    λ s. ok tt (record s { s_instance = some (record p { m_process_name = name }) })

  -- What `join` makes of the answer of `waitpid`.
  unfoldable pub joined : Process → Bool → Waited → M (State W) ℤ
  unfolding to_string
  joined p throw_non_zero waited =
      let exit_status = calls.wexitstatus waited.status in
      if not (int_eq waited.pid p.m_process_id)
      then throw (oks_system_call_issue waited.errno (codes "waitpid") (on_process p))
      else if calls.wifexited waited.status
      then (if not throw_non_zero || is_zero exit_status
          then pure exit_status
          else throw (termination_issue waited.errno exit_status))
      else if calls.wifsignaled waited.status
      then throw (signal_issue waited.errno (calls.wtermsig waited.status))
      else if calls.wifstopped waited.status
      then throw (signal_issue waited.errno (calls.wstopsig waited.status))
      else pure exit_status

  -- `join`: the reader of `errno` finds what `waitpid` has left there, since it was set to 0 before.
  unfoldable pub join : Process → Bool → M (State W) ℤ
  unfolding instance_process same_process joined
  join p throw_non_zero = do
    current ← instance_process
    ensure (not (same_process p current))
    λ s.
        let (waited, w) = calls.waitpid p.m_process_id s.world in
        joined p throw_non_zero waited (record s { world = w })

  unfoldable pub signal : Process → ℕ → M W (Unit {0})
  unfolding to_string
  signal p signal_number w =
      checked (calls.kill p.m_process_id signal_number w)
        (λ errno. oks_system_call_issue errno (codes "kill") (on_process p))

  abbrev succeeded : {A : Type 0} → Answer A → Bool
  succeeded (done a) = true
  succeeded (failed errno) = false

  unfoldable pub exists : Process → M W Bool
  exists p w = let (status, w') = calls.kill p.m_process_id 0 w in ok (succeeded status) w'

  unfoldable pub terminate : Process → M W (Unit {0})
  unfolding exists signal
  terminate p = do alive ← exists p; (if alive then signal p sigterm else pure tt)

-- ===== src/Process/Control.antt =====
-- The singleton of the current process, and what `join` and `terminate` do.
use okssystem.Prelude.{
  ℕ, ◌≡◌, ◌≢◌, ap, pos, negsuc, some, none, ◌⊎◌, inl, inr, Bool, true, false, arith, Text,
  assertion, ℤ, is_zero, ok, err,
}
use okssystem.Calls.{Answer-cases, done, Waited, ProcessCalls}
use okssystem.Process.{
  Process, State, int_eq, same_process, instance_process, set_name, join, joined, signal, exists,
  terminate, sigterm,
}

int_eq-eq : (a b : ℤ) → int_eq a b ≡ true → a ≡ b
int_eq-eq (pos m) (pos n) h = ap pos (ground arith)
int_eq-eq (negsuc m) (negsuc n) h = ap negsuc (ground arith)
int_eq-eq (pos m) (negsuc n) h = absurd (cc)
int_eq-eq (negsuc m) (pos n) h = absurd (cc)

int_eq_refl : (a : ℤ) → int_eq a a ≡ true
int_eq_refl (pos m) = ground arith
int_eq_refl (negsuc m) = ground arith

int_ne : (a b : ℤ) → int_eq a b ≡ false → a ≢ b
int_ne a b h e = let same = int_eq_refl b in absurd (let k = rw e at h in cc)

-- The identifier of the current process: the one of the singleton, or what `getpid` gives.
abbrev pub current_id : {W : Type 0} → ProcessCalls W → State W → ℤ
current_id calls s = elim s.s_instance [ some p ↦ p.m_process_id | none ↦ calls.getpid s.world ]

module _ {W : Type 0} (calls : ProcessCalls W) where
  -- A name that is set stays with the singleton, which keeps its process identifier in every later
  -- state of the system, also in one where `getpid` gives another.
  pub set_name-instance_process :
      (name : Text) (s s1 s2 : State W) (p : Process) (later : W)
      → instance_process calls s ≡ ok p s1
      → set_name calls name s ≡ ok tt s2
      → instance_process calls (record s2 { world = later })
        ≡ ok (record p { m_process_name = name }) (record s2 { world = later })
  unfolding instance_process set_name
  set_name-instance_process name s s1 s2 p later h k = ground arith

  -- `join` on the current process throws without waiting.
  pub join_self :
      (p q : Process) (throw_non_zero : Bool) (s s' : State W)
      → instance_process calls s ≡ ok q s'
      → same_process p q ≡ true
      → join calls p throw_non_zero s ≡ err assertion s'
  unfolding join
  join_self p q throw_non_zero s s' h same = ground arith

  -- If every status that `waitpid` gives is the one of a child that has exited, was signalled or
  -- stopped: what `join` returns is the exit status of this very process, which is not the current
  -- one, which `waitpid` answered for and which has exited; it is 0 if other values are to be thrown.
  pub join-eq-ok :
      ((status : ℕ)
        → calls.wifexited status ≡ false
        → calls.wifsignaled status ≡ false
        → calls.wifstopped status ≡ true)
      → (p : Process) (throw_non_zero : Bool) (s s' : State W) (exit_status : ℤ)
      → join calls p throw_non_zero s ≡ ok exit_status s'
      → (waited : Waited) × (calls.waitpid p.m_process_id s.world ≡ (waited, s'.world))
        × (waited.pid ≡ p.m_process_id)
        × (p.m_process_id ≢ current_id calls s)
        × (calls.wifexited waited.status ≡ true)
        × (exit_status ≡ calls.wexitstatus waited.status)
        × ((throw_non_zero ≡ true) → (is_zero exit_status ≡ true))
  unfolding join joined instance_process
  join-eq-ok exhaustive p throw_non_zero s s' exit_status h =
      let (waited, w) = calls.waitpid p.m_process_id s.world in
      let stops = exhaustive waited.status in
      let own : int_eq waited.pid p.m_process_id ≡ true = ground arith in
      let apart : int_eq p.m_process_id (current_id calls s) ≡ false = ground arith in
      (
        waited,
        ground arith,
        int_eq-eq waited.pid p.m_process_id own,
        λ e. int_ne p.m_process_id (current_id calls s) apart e,
        ground (arith, stops),
        ground arith,
        λ all. ground (arith, stops, all),
      )

  -- If the probe with signal 0 changes nothing, and who can be probed can be sent a signal,
  -- `terminate` returns: it has sent SIGTERM to a process that exists, and done nothing else.
  pub terminate_outcome :
      ((pid : ℤ) (w : W) → (calls.kill pid 0 w).1 ≡ w)
      → ((pid : ℤ) (w : W)
          → (calls.kill pid 0 w).0 ≡ done tt
          → (calls.kill pid sigterm w).0 ≡ done tt)
      → (p : Process) (w : W)
      → ((exists calls p w ≡ ok true w)
          × (terminate calls p w ≡ ok tt (calls.kill p.m_process_id sigterm w).1))
        ⊎ ((exists calls p w ≡ ok false w) × (terminate calls p w ≡ ok tt w))
  unfolding exists terminate signal
  terminate_outcome quiet reachable p w =
      let pid = p.m_process_id in
      elim (Answer-cases (calls.kill pid 0 w).0) [
        | inl (u, e) ↦
            inl (ground (arith, e, quiet pid w), ground (arith, e, quiet pid w, reachable pid w e))
        | inr (errno, e) ↦ inr (ground (arith, e, quiet pid w), ground (arith, e, quiet pid w))
      ]

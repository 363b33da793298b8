-- ===== src/Executable/Mask/Piped.antt =====
-- The signal mask behind `pipe_in`.
use okssystem.Prelude.{
  ℕ, zero, suc, ◌≡◌, inl, inr, refl, ap, sym, ◌∙◌, false, List, [], ◌++◌, arith, Text, ℤ, pos, M,
  Out, ok, err, Out-cases, state_of, bind_out, ◌>>=◌,
}
use okssystem.Calls.{
  Answer-cases, Forked, in_child, in_parent, no_child, SpawnCalls, IoCalls, ProcessCalls,
}
use okssystem.Process
use okssystem.Process.{Process, State}
use okssystem.Executable.{Executable, exec, to_string}
use okssystem.Executable.Start.{
  Run, parent, child, Child, runs, exits, exit_failure, all_signals, restore_mask, default_signals,
}
use okssystem.Executable.Pipes.{
  Ends, buffer_size, on_world, change_world, copy_fd, close_end, close_three, make_pipe,
  command_result, collect_output, after_fork_piped, run_piped, then_run, pipe_in,
}
use okssystem.Executable.Mask.{AtEnd, IsMask, exec-exec_world, child_mask}

-- `pipe`, `read` and `waitpid` leave the mask alone, too.
pub record KeepsMask {W : Type 0} (spawn : SpawnCalls W) (io : IoCalls W) (calls : ProcessCalls W)
    (mask : W → ℕ) : Type 0 where
  pub pipe_keeps : (w : W) → mask (spawn.pipe w).1 ≡ mask w
  pub read_keeps : (fd : ℤ) (n : ℕ) (w : W) → mask (io.read fd n w).1 ≡ mask w
  pub waitpid_keeps : (pid : ℤ) (w : W) → mask (calls.waitpid pid w).1 ≡ mask w

module _ {W : Type 0} (spawn : SpawnCalls W) (io : IoCalls W) (calls : ProcessCalls W)
    (mask : W → ℕ) (laws : IsMask spawn io mask) (more : KeepsMask spawn io calls mask) where
  Keeps : {A : Type 0} → M (State W) A → Type 0
  Keeps m = (s : State W) → mask (state_of (m s)).world ≡ mask s.world

  bound-Keeps :
      {A B : Type 0} (o : Out (State W) A) (f : A → M (State W) B) (k : ℕ)
      → mask (state_of o).world ≡ k
      → ((a : A) → Keeps (f a))
      → mask (state_of (bind_out o f)).world ≡ k
  unfolding Keeps
  bound-Keeps (ok a t) f k h keeps = keeps a t ∙ h
  bound-Keeps (err e t) f k h keeps = h

  bind-Keeps :
      {A B : Type 0} (m : M (State W) A) (f : A → M (State W) B)
      → Keeps m
      → ((a : A) → Keeps (f a))
      → Keeps (m >>= f)
  unfolding Keeps
  bind-Keeps m f hm hf s = bound-Keeps (m s) f (mask s.world) (hm s) hf

  copy_fd_mask :
      (rounds : ℕ) (fd : ℤ) (target : Text) (w : W)
      → mask (state_of (copy_fd io rounds fd target w)) ≡ mask w
  unfolding copy_fd
  copy_fd_mask zero fd target w = refl
  copy_fd_mask (suc rounds) fd target w =
      let w' = (io.read fd buffer_size w).1 in
      elim (Answer-cases (io.read fd buffer_size w).0) [
        | inl (chunk, e) ↦ ground (
          arith,
          e,
          more.read_keeps fd buffer_size w,
          copy_fd_mask rounds fd (target ++ chunk) w',
        )
        | inr (errno, e) ↦ ground (arith, e, more.read_keeps fd buffer_size w)
      ]

  close_three_mask : (a b c : ℤ) (w : W) → mask (close_three io a b c w) ≡ mask w
  close_three_mask a b c w =
      let v = close_end io a w in
      let u = close_end io b v in laws.close_keeps c u ∙ laws.close_keeps b v ∙ laws.close_keeps a w

  on_world-Keeps :
      {A : Type 0} (m : M W A) → ((w : W) → mask (state_of (m w)) ≡ mask w) → Keeps (on_world m)
  unfolding Keeps
  on_world-Keeps m h s = elim (Out-cases (m s.world)) [
    | inl (a, w, e) ↦ rw e (ap mask (sym (ap state_of e)) ∙ h s.world)
    | inr (issue, w, e) ↦ rw e (ap mask (sym (ap state_of e)) ∙ h s.world)
  ]

  join-Keeps : (p : Process) → Keeps (Process.join calls p false)
  unfolding Keeps Process.join Process.joined Process.instance_process Process.same_process
  join-Keeps p s = ground (arith, more.waitpid_keeps p.m_process_id s.world)

  close_three-Keeps : (a b c : ℤ) → Keeps (change_world (close_three io a b c))
  unfolding Keeps
  close_three-Keeps a b c s = close_three_mask a b c s.world

  command_result-Keeps :
      (e : Executable) (params : List Text) (child_status : ℤ) (text : Text)
      → Keeps (on_world (command_result spawn io calls e params child_status text))
  unfolding Keeps
  command_result-Keeps e params child_status text s = ground arith

  collect_output-Keeps :
      (rounds : ℕ) (e : Executable) (params : List Text) (p : Process) (a b c : Ends)
      → Keeps (collect_output spawn io calls rounds e params p a b c)
  unfolding collect_output
  collect_output-Keeps rounds e params p a b c = bind-Keeps _ _ (close_three-Keeps a.1 b.1 c.1) λ u.
      bind-Keeps _ _ (join-Keeps p) λ child_status.
        bind-Keeps _ _ (on_world-Keeps (copy_fd io rounds a.0 []) (copy_fd_mask rounds a.0 []))
          λ in_stream.
            bind-Keeps _ _ (on_world-Keeps (copy_fd io rounds b.0 []) (copy_fd_mask rounds b.0 []))
              λ out_stream.
                bind-Keeps _ _
                  (on_world-Keeps (copy_fd io rounds c.0 []) (copy_fd_mask rounds c.0 []))
                  λ err_stream.
                    bind-Keeps _ _ (close_three-Keeps a.0 b.0 c.0)
                      λ v. command_result-Keeps e params child_status out_stream

  make_pipe_mask : (w : W) → mask (state_of (make_pipe spawn io calls w)) ≡ mask w
  unfolding make_pipe
  make_pipe_mask w = ground (arith, more.pipe_keeps w)

  -- What holds of the mask at the end of a run, in the parent or in the program that the child becomes.
  abbrev pub HasMask : {A : Type 0} → ℕ → Run W (State W) A → Type 0
  HasMask m (parent (ok a s)) = mask s.world ≡ m
  HasMask m (parent (err e s)) = mask s.world ≡ m
  HasMask m (child (runs program w)) = mask w ≡ m
  HasMask m (child (exits status w)) = status ≡ exit_failure

  parent-HasMask :
      {A : Type 0} (m : ℕ) (o : Out (State W) A)
      → mask (state_of o).world ≡ m
      → HasMask m (parent o)
  parent-HasMask m (ok a s) h = h
  parent-HasMask m (err e s) h = h

  child-HasMask :
      (m : ℕ) (c : Child W)
      → AtEnd {A = Process} (λ v. mask v ≡ m) (child c)
      → HasMask {A = Text} m (child c)
  child-HasMask m (runs program w) h = h
  child-HasMask m (exits status w) h = h

  after_fork_piped-HasMask :
      (rounds : ℕ) (e : Executable) (params : List Text) (a b c : Ends) (m : ℕ) (answer : Forked)
      (s : State W)
      → HasMask m (after_fork_piped spawn io calls rounds e params a b c m answer s)
  unfolding after_fork_piped Keeps
  after_fork_piped-HasMask rounds e params a b c m in_child s =
      let w0 = restore_mask spawn io m (default_signals spawn io s.world) in
      let w1 = spawn.dup2 a.1 (pos 0) w0 in
      let w2 = spawn.dup2 b.1 (pos 1) w1 in
      let v = spawn.dup2 c.1 (pos 2) w2 in
      let same : mask v ≡ m =
        laws.dup2_keeps c.1 (pos 2) w2
        ∙ laws.dup2_keeps b.1 (pos 1) w1
        ∙ laws.dup2_keeps a.1 (pos 0) w0
        ∙ laws.sets m (default_signals spawn io s.world) in
      child-HasMask m _ (
        child_mask spawn io mask laws m (exec spawn e params v)
          (ap mask (exec-exec_world spawn e params v) ∙ same))
  after_fork_piped-HasMask rounds e params a b c m (in_parent id) s =
      let p : Process = record { m_process_id = pos id; m_process_name = to_string e params } in
      let s' : State W = record s { world = restore_mask spawn io m s.world } in
      parent-HasMask m (collect_output spawn io calls rounds e params p a b c s')
        (collect_output-Keeps rounds e params p a b c s' ∙ laws.sets m s.world)
  after_fork_piped-HasMask rounds e params a b c m (no_child errno) s = laws.sets m s.world

  -- The same by the outcome of the first part.
  then_HasMask :
      {A B : Type 0} (o : Out (State W) A) (k : A → State W → Run W (State W) B) (m : ℕ)
      → mask (state_of o).world ≡ m
      → ((a : A) (t : State W) → mask t.world ≡ m → HasMask m (k a t))
      → HasMask {A = B} m (elim o [ ok a t ↦ k a t | err e t ↦ parent (err e t) ])
  then_HasMask (ok a t) k m kept h = h a t kept
  then_HasMask (err e t) k m kept h = kept

  then_run-HasMask :
      {A B : Type 0} (n : M (State W) A) (k : A → State W → Run W (State W) B) (s : State W)
      → Keeps n
      → ((a : A) (t : State W) → mask t.world ≡ mask s.world → HasMask (mask s.world) (k a t))
      → HasMask (mask s.world) (then_run spawn io calls n k s)
  unfolding Keeps
  then_run-HasMask {A} {B} n k s keeps h = then_HasMask (n s) k (mask s.world) (keeps s) h

  run_piped-HasMask :
      (rounds : ℕ) (e : Executable) (params : List Text) (a b c : Ends) (s : State W) (m : ℕ)
      → mask s.world ≡ m
      → HasMask m (run_piped spawn io calls rounds e params a b c s)
  unfolding run_piped
  run_piped-HasMask rounds e params a b c s m h =
      let blocked = spawn.sigmask all_signals s.world in
      let forked = spawn.fork blocked.1 in
      rw (laws.gives all_signals s.world ∙ h)
        (after_fork_piped-HasMask rounds e params a b c m forked.0 (record s { world = forked.1 }))

  pipe-Keeps : Keeps (on_world (make_pipe spawn io calls))
  pipe-Keeps = on_world-Keeps (make_pipe spawn io calls) make_pipe_mask

  -- If `sigmask` sets the signal mask and gives the old one, and the other calls leave it alone
  -- (`IsMask`, `KeepsMask`): however `pipe_in` ends, also by an issue and where `fork` fails, the
  -- caller has the mask that it had, and the program runs with this mask; a child without a program
  -- exits with EXIT_FAILURE.
  pub pipe_in-HasMask :
      (rounds : ℕ) (e : Executable) (params : List Text) (s : State W)
      → HasMask (mask s.world) (pipe_in spawn io calls rounds e params s)
  unfolding pipe_in
  pipe_in-HasMask rounds e params s = then_run-HasMask _ _ s pipe-Keeps λ a s1 e1. rw (← e1) (
      then_run-HasMask _ _ s1 pipe-Keeps λ b s2 e2. rw (← e2) (
        then_run-HasMask _ _ s2 pipe-Keeps
          λ c s3 e3. run_piped-HasMask rounds e params a b c s3 (mask s2.world) e3))

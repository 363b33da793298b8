-- ===== src/Executable/Output/Collected.antt =====
-- The parent of `pipe_in`: it closes the write ends, waits for the child, reads and closes the rest.
use okssystem.Prelude.{
  ℕ, ◌<◌, ◌≡◌, ◌≢◌, ◌⊎◌, inl, inr, refl, ap, ◌∙◌, sym, Bool, true, false, if◌then◌else◌, List, [],
  arith, length, Text, ℤ, is_zero, Issue, execution_issue, Out, ok, err, Out-cases, state_of,
}
use okssystem.Calls.{SpawnCalls, IoCalls, ProcessCalls}
use okssystem.Process
use okssystem.Process.{Process, State}
use okssystem.Executable.{Executable, to_string}
use okssystem.Executable.Pipes.{Ends, close_three, collect_output}
use okssystem.Executable.Output.Closing.{
  AllClosed, close_three-AllClosed, close_three_none, close_three_others,
}
use okssystem.Executable.Output.{IsPipes, copy_fd_lem}

module _ {W : Type 0} (spawn : SpawnCalls W) (io : IoCalls W) (calls : ProcessCalls W)
    (content : ℤ → W → Text) (is_open : ℤ → W → Bool) (laws : IsPipes io content is_open) where
  -- The parent's system behind `waitpid`.
  abbrev pub waited_world : Process → Ends → Ends → Ends → W → W
  waited_world child input data_pipe error w =
      (calls.waitpid child.m_process_id (close_three io input.1 data_pipe.1 error.1 w)).1

  join-world :
      (p : Process) (s s2 : State W) (exit_status : ℤ)
      → Process.join calls p false s ≡ ok exit_status s2
      → s2.world ≡ (calls.waitpid p.m_process_id s.world).1
  unfolding Process.join Process.joined Process.instance_process Process.same_process
  join-world p s s2 exit_status h = ground arith

  join_left :
      (p : Process) (s : State W) (other : ℤ)
      → is_open other (calls.waitpid p.m_process_id s.world).1 ≡ is_open other s.world
      → is_open other (state_of (Process.join calls p false s)).world ≡ is_open other s.world
  unfolding Process.join Process.joined Process.instance_process Process.same_process
  join_left p s other h = ground (arith, h)

  -- The three reads, and what is made of them; the writers have ended.
  collect_output_joined :
      (rounds : ℕ) (e : Executable) (params : List Text) (child : Process)
      (input data_pipe error : Ends) (s s2 : State W) (child_status : ℤ)
      → data_pipe.0 ≢ input.0
      → error.0 ≢ input.0
      → error.0 ≢ data_pipe.0
      → Process.join calls child false
          (record s { world = close_three io input.1 data_pipe.1 error.1 s.world })
        ≡ ok child_status s2
      → length (content input.0 s2.world) < rounds
      → length (content data_pipe.0 s2.world) < rounds
      → length (content error.0 s2.world) < rounds
      → (w' : W) × (collect_output spawn io calls rounds e params child input data_pipe error s ≡ (
          let w3 = close_three io input.0 data_pipe.0 error.0 w' in
          let s3 = record s2 { world = w3 } in
          if is_zero child_status
          then ok (content data_pipe.0 s2.world) s3
          else err (execution_issue (spawn.errno w3) (to_string e params) child_status) s3))
        × ((other : ℤ) → is_open other w' ≡ is_open other s2.world)
  unfolding collect_output
  collect_output_joined rounds e params child input data_pipe error s s2 child_status hd hi he join
        li ld le =
      let (w1, same1, (others1, open1)) =
        copy_fd_lem io content is_open laws rounds input.0 [] s2.world li in
      let (w2, same2, (others2, open2)) =
        copy_fd_lem io content is_open laws rounds data_pipe.0 [] w1
          (rw (others1 data_pipe.0 hd) ld) in
      let (w3, same3, (others3, open3)) =
        copy_fd_lem io content is_open laws rounds error.0 [] w2
          (rw (others2 error.0 he ∙ others1 error.0 hi) le) in
      (
        w3,
        ground (arith, join, same1, same2, same3, others1 data_pipe.0 hd),
        λ other. open3 other ∙ open2 other ∙ open1 other,
      )

  -- `join` of the child, where `pipe_in` calls it.
  abbrev pub joined_child : Process → Ends → Ends → Ends → State W → Out (State W) ℤ
  joined_child child input data_pipe error s =
      Process.join calls child false
        (record s { world = close_three io input.1 data_pipe.1 error.1 s.world })

  -- The end behind a `join` that returns: the text, or the issue, and no end of a pipe is open.
  abbrev pub Collected :
      Executable → List Text → Ends → Ends → Ends → Text → ℤ → Out (State W) Text → Type 0
  Collected e params input data_pipe error text child_status result =
      (result ≡ (
        if is_zero child_status
        then ok text (state_of result)
        else err
            (execution_issue (spawn.errno (state_of result).world) (to_string e params)
              child_status)
            (state_of result)))
      × (AllClosed is_open input.0 data_pipe.0 error.0 (state_of result).world
          × AllClosed is_open input.1 data_pipe.1 error.1 (state_of result).world)

  -- The end behind a `join` that throws: the same issue, and the descriptors are as before but for the
  -- write ends.
  abbrev pub Abandoned : Ends → Ends → Ends → Issue → State W → Out (State W) Text → Type 0
  Abandoned input data_pipe error issue s result =
      (result ≡ err issue (state_of result))
      × AllClosed is_open input.1 data_pipe.1 error.1 (state_of result).world
      × ((fd : ℤ)
          → fd ≢ input.1
          → fd ≢ data_pipe.1
          → fd ≢ error.1
          → is_open fd (state_of result).world ≡ is_open fd s.world)

  settled :
      (r : Out (State W) Text) (zero_status : Bool) (text : Text) (issue : W → Issue) (s3 : State W)
      (P : W → Type 0)
      → r ≡ (if zero_status then ok text s3 else err (issue s3.world) s3)
      → P s3.world
      → (r ≡ (
          if zero_status
          then ok text (state_of r)
          else err (issue (state_of r).world) (state_of r)))
        × P (state_of r).world
  settled r true text issue s3 P h p = rw h (refl, p)
  settled r false text issue s3 P h p = rw h (refl, p)

  joined-Collected :
      (rounds : ℕ) (e : Executable) (params : List Text) (child : Process)
      (input data_pipe error : Ends) (s s2 : State W) (child_status : ℤ)
      → data_pipe.0 ≢ input.0
      → error.0 ≢ input.0
      → error.0 ≢ data_pipe.0
      → joined_child child input data_pipe error s ≡ ok child_status s2
      → ((pid fd : ℤ) (w : W) → is_open fd (calls.waitpid pid w).1 ≡ is_open fd w)
      → length (content input.0 s2.world) < rounds
      → length (content data_pipe.0 s2.world) < rounds
      → length (content error.0 s2.world) < rounds
      → Collected e params input data_pipe error
          (content data_pipe.0 s2.world)
          child_status
          (collect_output spawn io calls rounds e params child input data_pipe error s)
  joined-Collected rounds e params child input data_pipe error s s2 child_status hd hi he join quiet
        li ld le =
      let (w', same, open') =
        collect_output_joined rounds e params child input data_pipe error s s2 child_status hd hi he
          join li ld le in
      let w3 = close_three io input.0 data_pipe.0 error.0 w' in
      let w1 = close_three io input.1 data_pipe.1 error.1 s.world in
      let (ci, cd, ce) = close_three-AllClosed laws input.1 data_pipe.1 error.1 s.world in
      let joined = join-world child (record s { world = w1 }) s2 child_status join in
      let still = λ (fd : ℤ) (h : is_open fd w1 ≡ false).
        close_three_none laws input.0 data_pipe.0 error.0 fd w'
          (open' fd ∙ ap (is_open fd) joined ∙ quiet child.m_process_id fd w1 ∙ h) in
      settled _ (is_zero child_status) _
        (λ w. execution_issue (spawn.errno w) (to_string e params) child_status)
        (record s2 { world = w3 })
        (λ w.
          AllClosed is_open input.0 data_pipe.0 error.0 w
          × AllClosed is_open input.1 data_pipe.1 error.1 w)
        same
        (
          close_three-AllClosed laws input.0 data_pipe.0 error.0 w',
          (still input.1 ci, still data_pipe.1 cd, still error.1 ce),
        )

  joined_fails :
      (rounds : ℕ) (e : Executable) (params : List Text) (child : Process)
      (input data_pipe error : Ends) (s s2 : State W) (issue : Issue)
      → joined_child child input data_pipe error s ≡ err issue s2
      → collect_output spawn io calls rounds e params child input data_pipe error s ≡ err issue s2
  unfolding collect_output
  joined_fails rounds e params child input data_pipe error s s2 issue join = ground (arith, join)

  joined-Abandoned :
      (rounds : ℕ) (e : Executable) (params : List Text) (child : Process)
      (input data_pipe error : Ends) (s s2 : State W) (issue : Issue)
      → joined_child child input data_pipe error s ≡ err issue s2
      → ((pid fd : ℤ) (w : W) → is_open fd (calls.waitpid pid w).1 ≡ is_open fd w)
      → Abandoned input data_pipe error issue s
          (collect_output spawn io calls rounds e params child input data_pipe error s)
  joined-Abandoned rounds e params child input data_pipe error s s2 issue join quiet =
      let w1 = close_three io input.1 data_pipe.1 error.1 s.world in
      let left = λ (fd : ℤ).
        ap (λ (r : Out (State W) ℤ). is_open fd (state_of r).world) (sym join)
        ∙ join_left child (record s { world = w1 }) fd (quiet child.m_process_id fd w1) in
      let (ci, cd, ce) = close_three-AllClosed laws input.1 data_pipe.1 error.1 s.world in
      rw (joined_fails rounds e params child input data_pipe error s s2 issue join) (
        refl,
        (left input.1 ∙ ci, left data_pipe.1 ∙ cd, left error.1 ∙ ce),
        λ fd hi hd he.
            left fd ∙ close_three_others laws input.1 data_pipe.1 error.1 fd s.world hi hd he,
      )

  -- If the descriptors behave as pipes whose writers have ended (`IsPipes`), the read ends differ,
  -- `waitpid` leaves the descriptors alone, and no pipe holds as many bytes as there are rounds, the
  -- parent of `pipe_in` comes to one of two ends. The child is joined: the result is the whole text of
  -- its standard output if its status is 0, and an `ExecutionIssue` with the command and the status if
  -- not, and all six ends of the pipes are closed. Or `join` throws: the issue passes, the write ends
  -- are closed, and every other descriptor is as open as before, the three read ends too.
  pub collect_output_outcome :
      (rounds : ℕ) (e : Executable) (params : List Text) (child : Process)
      (input data_pipe error : Ends) (s : State W)
      → data_pipe.0 ≢ input.0
      → error.0 ≢ input.0
      → error.0 ≢ data_pipe.0
      → ((pid fd : ℤ) (w : W) → is_open fd (calls.waitpid pid w).1 ≡ is_open fd w)
      → length (content input.0 (waited_world child input data_pipe error s.world)) < rounds
      → length (content data_pipe.0 (waited_world child input data_pipe error s.world)) < rounds
      → length (content error.0 (waited_world child input data_pipe error s.world)) < rounds
      → ((child_status : ℤ) × (s2 : State W) × (joined_child child input data_pipe error s
            ≡ ok child_status s2)
          × Collected e params input data_pipe error
              (content data_pipe.0 (waited_world child input data_pipe error s.world))
              child_status
              (collect_output spawn io calls rounds e params child input data_pipe error s))
        ⊎ ((issue : Issue) × (s2 : State W) × (joined_child child input data_pipe error s
              ≡ err issue s2)
            × Abandoned input data_pipe error issue s
                (collect_output spawn io calls rounds e params child input data_pipe error s))
  collect_output_outcome rounds e params child input data_pipe error s hd hi he quiet li ld le =
      elim (Out-cases (joined_child child input data_pipe error s)) [
        | inl (child_status, s2, join) ↦
            let w1 = close_three io input.1 data_pipe.1 error.1 s.world in
            let e2 = join-world child (record s { world = w1 }) s2 child_status join in
            inl (
              child_status,
              s2,
              join,
              rw (← e2) (
                  joined-Collected rounds e params child input data_pipe error s s2 child_status hd
                    hi he join quiet (rw e2 li) (rw e2 ld) (rw e2 le)),
            )
        | inr (issue, s2, join) ↦ inr (
          issue,
          s2,
          join,
          joined-Abandoned rounds e params child input data_pipe error s s2 issue join quiet,
        )
      ]

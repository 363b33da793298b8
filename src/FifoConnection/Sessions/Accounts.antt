-- ===== src/FifoConnection/Sessions/Accounts.antt =====
-- The descriptors that are open behind a sequence of calls.
use Prim.Native.Nat.{bit_or}
use okssystem.File.Pretty.{o_nonblock}
use okssystem.Prelude.{
  if◌then◌else◌, ℕ, ◌≡◌, ◌⊎◌, inl, inr, ◌∙◌, sym, Bool, true, false, arith, none, some,
  Option-cases, List, [], ◌∷◌, ℤ, ok, state_of, false_of_implies,
}
use okssystem.Calls.{UserCalls, FileCalls, IoCalls}
use okssystem.Descriptor.{Descriptor, open_descriptor}
use okssystem.Descriptor.Table.{IsTable, Holds, open_descriptor-Holds}
use okssystem.FifoConnection.{Connected, receive, send, open_fifo, close_fifo}
use okssystem.FifoConnection.Sessions.{
  Command, open_with, send_text, receive_in, close_it, step, session,
}
use okssystem.FifoConnection.Sessions.Table.{
  delete_fd-Holds, send-connection, send_keeps, receive-connection, receive_keeps,
}

module _ {W : Type 0} (users : UserCalls W) (files : FileCalls W) (io : IoCalls W)
    (is_open : ℤ → W → Bool) (laws : IsTable io is_open) where
  -- What is open was open at the start, or is the descriptor of the connection.
  Accounted : W → Connected W → Type 0
  Accounted start s =
      (fd : ℤ)
      → is_open fd s.world ≡ true
      → (is_open fd start ≡ true) ⊎ Holds s.connection.m_fifo_fd fd

  closed_Accounted :
      (start : W) (s : Connected W)
      → Accounted start s
      → (fd : ℤ) → is_open fd (close_fifo io s).world ≡ true
      → is_open fd start ≡ true
  unfolding Accounted close_fifo
  closed_Accounted start s acc fd h =
      let (loose, before) =
        delete_fd-Holds users files io is_open laws s.connection.m_fifo_fd s.world fd h in
      elim (acc fd before) [ inl old ↦ old | inr held ↦ absurd (loose held) ]

  -- A method that keeps the connection and the table.
  quiet-Accounted :
      (start : W) (s t : Connected W)
      → Accounted start s
      → t.connection ≡ s.connection
      → ((fd : ℤ) → is_open fd t.world ≡ is_open fd s.world)
      → Accounted start t
  unfolding Accounted
  quiet-Accounted start s t acc same keeps fd h = rw same (acc fd (sym (keeps fd) ∙ h))

  abbrev asked_flags : ℕ → Bool → ℕ
  asked_flags mode block = if block then mode else bit_or mode o_nonblock

  open_fifo_world :
      (mode : ℕ) (block : Bool) (s : Connected W)
      → s.connection.m_fifo_fd ≡ none
      → (state_of (open_fifo users files io mode block s)).world
        ≡ state_of
            (open_descriptor users files io s.connection.m_file (asked_flags mode block) 0 s.world)
  unfolding open_fifo
  open_fifo_world mode true s h = ground (arith, h)
  open_fifo_world mode false s h = ground (arith, h)

  open_fifo_fd :
      (mode : ℕ) (block : Bool) (s : Connected W) (d : Descriptor) (w : W)
      → s.connection.m_fifo_fd ≡ none
      → open_descriptor users files io s.connection.m_file (asked_flags mode block) 0 s.world
        ≡ ok d w
      → (state_of (open_fifo users files io mode block s)).connection.m_fifo_fd ≡ some d
  unfolding open_fifo
  open_fifo_fd mode true s d w h e = ground (arith, h, e)
  open_fifo_fd mode false s d w h e = ground (arith, h, e)

  open_fifo_again :
      (mode : ℕ) (block : Bool) (s : Connected W) (d : Descriptor)
      → s.connection.m_fifo_fd ≡ some d
      → state_of (open_fifo users files io mode block s) ≡ s
  unfolding open_fifo
  open_fifo_again mode block s d e = ground (arith, e)

  open_fifo-Accounted :
      (start : W) (mode : ℕ) (block : Bool) (s : Connected W)
      → Accounted start s
      → Accounted start (state_of (open_fifo users files io mode block s))
  unfolding Accounted
  open_fifo-Accounted start mode block s acc fd h = elim (Option-cases s.connection.m_fifo_fd) [
    | inr (d, e) ↦
        rw (open_fifo_again mode block s d e) (acc fd (rw (← open_fifo_again mode block s d e) h))
    | inl e ↦
        elim (open_descriptor-Holds users files io is_open laws s.connection.m_file
          (asked_flags mode block) 0 s.world fd (rw (← open_fifo_world mode block s e) h)) [
            | inl old ↦ elim (acc fd old) [
              | inl before ↦ inl before
              | inr held ↦ absurd (rw e at held)
            ]
            | inr (d, opened, held) ↦ inr (rw (open_fifo_fd mode block s d _ e opened) held)
          ]
  ]

  step-Accounted :
      (start : W) (c : Command) (s : Connected W)
      → Accounted start s
      → Accounted start (step users files io c s)
  unfolding step Accounted
  step-Accounted start (open_with mode block) s acc = open_fifo-Accounted start mode block s acc
  step-Accounted start (send_text message) s acc =
      quiet-Accounted start s (state_of (send io message s)) acc
        (send-connection users files io is_open laws message s)
        (send_keeps users files io is_open laws message s)
  step-Accounted start (receive_in rounds) s acc =
      quiet-Accounted start s (state_of (receive io rounds s)) acc
        (receive-connection users files io is_open laws rounds s)
        (receive_keeps users files io is_open laws rounds s)
  step-Accounted start close_it s acc = λ fd h. inl (closed_Accounted start s acc fd h)

  session-Accounted :
      (start : W) (commands : List Command) (s : Connected W)
      → Accounted start s
      → Accounted start (session users files io commands s)
  session-Accounted start [] s acc = acc
  session-Accounted start (c ∷ commands) s acc =
      session-Accounted start commands (step users files io c s) (step-Accounted start c s acc)

  -- If `open`, `close` and the other calls treat the table of descriptors as `IsTable` says: whatever
  -- calls a client makes on a connection, and whichever of them throw, a descriptor that was not open
  -- before them is not open behind the destructor.
  pub close_fifo-session :
      (commands : List Command) (s : Connected W) (fd : ℤ)
      → is_open fd s.world ≡ false
      → is_open fd (close_fifo io (session users files io commands s)).world ≡ false
  unfolding Accounted
  close_fifo-session commands s fd free =
      let t = session users files io commands s in
      false_of_implies _ _
        (closed_Accounted s.world t (session-Accounted s.world commands s (λ k old. inl old)) fd)
        free

-- ===== src/FifoConnection/Opening.antt =====
-- Opening and closing the descriptor of a connection.
use okssystem.Prelude.{
  ◌≡◌, ◌⊎◌, inl, inr, refl, Bool, ◌&&◌, ℕ, none, some, arith, Issue, ok, err, Out-cases,
}
use okssystem.Calls.{UserCalls, FileCalls, IoCalls}
use okssystem.Descriptor.{Descriptor}
use okssystem.FifoConnection.{Connected, open_fifo, close_fifo}

module _ {W : Type 0} (users : UserCalls W) (files : FileCalls W) (io : IoCalls W) where
  -- Opening a connection without a descriptor either gives it one, which `close` takes away again,
  -- or throws and leaves it without one. On both ways out the connection counts as blocking if it did
  -- before and blocking is asked for.
  pub open_fifo_outcome :
      (mode : ℕ) (block : Bool) (s : Connected W)
      → s.connection.m_fifo_fd ≡ none
      → ((d : Descriptor) × (t : Connected W) × (open_fifo users files io mode block s ≡ ok d t)
          × (t.connection.m_fifo_fd ≡ some d)
          × (t.connection.m_is_blocking ≡ s.connection.m_is_blocking && block)
          × ((close_fifo io t).connection ≡ record t.connection { m_fifo_fd = none }))
        ⊎ ((e : Issue) × (t : Connected W) × (open_fifo users files io mode block s ≡ err e t)
            × (t.connection.m_fifo_fd ≡ none)
            × (t.connection.m_is_blocking ≡ s.connection.m_is_blocking && block))
  unfolding open_fifo close_fifo
  open_fifo_outcome mode block s h = elim (Out-cases (open_fifo users files io mode block s)) [
    | inl (d, t, e) ↦ inl (d, t, e, ground arith, ground arith, refl)
    | inr (issue, t, e) ↦ inr (issue, t, e, ground arith, ground arith)
  ]

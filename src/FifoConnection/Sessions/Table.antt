-- ===== src/FifoConnection/Sessions/Table.antt =====
-- What the methods of a connection do to the table of open descriptors.
use okssystem.Prelude.{
  ℕ, zero, suc, ◌-◌, ◌≡◌, inl, inr, refl, ap, ◌∙◌, Bool, true, false, arith, Option, none, some,
  Option-cases, take, Text, ℤ, state_of,
}
use okssystem.Calls.{UserCalls, FileCalls, IoCalls}
use okssystem.Descriptor.{Descriptor, read, write, destroy}
use okssystem.FifoConnection.{
  Connected, max_message_len, sent_length, read_rounds, put_message, receive, send, delete_fd,
}
use okssystem.Descriptor.Table.{IsTable, Holds, destroy_opens_none, destroy_closes}

module _ {W : Type 0} (users : UserCalls W) (files : FileCalls W) (io : IoCalls W)
    (is_open : ℤ → W → Bool) (laws : IsTable io is_open) where
  pub read_rounds_keeps :
      (rounds : ℕ) (is_blocking : Bool) (d : Descriptor) (w : W) (fd : ℤ)
      → is_open fd (state_of (read_rounds io rounds is_blocking d w)) ≡ is_open fd w
  unfolding read_rounds read
  read_rounds_keeps zero is_blocking d w fd = refl
  read_rounds_keeps (suc rounds) is_blocking d w fd = ground (
    arith,
    laws.read_keeps d.m_fd fd (max_message_len - 1) w,
    laws.usleep_keeps fd 100000 (io.read d.m_fd (max_message_len - 1) w).1,
    read_rounds_keeps rounds is_blocking d
        (io.usleep 100000 (io.read d.m_fd (max_message_len - 1) w).1) fd,
  )

  pub put_message_keeps :
      (d : Descriptor) (message : Text) (w : W) (fd : ℤ)
      → is_open fd (state_of (put_message io d message w)) ≡ is_open fd w
  unfolding put_message write
  put_message_keeps d message w fd =
      ground (arith, laws.write_keeps d.m_fd fd (take (sent_length message) message) w)

  pub delete_fd-Holds :
      (o : Option Descriptor) (w : W) (fd : ℤ)
      → is_open fd (delete_fd io o w) ≡ true
      → (¬ Holds o fd) × (is_open fd w ≡ true)
  delete_fd-Holds none w fd h = (λ held. held, h)
  delete_fd-Holds (some d) w fd h = (
    λ (n, e, same).
        let gone : is_open fd (destroy io (record { descriptor = d; world = w })) ≡ false =
          ap (λ k. is_open k (destroy io (record { descriptor = d; world = w }))) e
          ∙ destroy_closes users files io is_open laws d w n same in
        absurd (ground (arith, h, gone)),
    destroy_opens_none users files io is_open laws (record { descriptor = d; world = w }) fd h,
  )

  pub send-connection :
      (message : Text) (s : Connected W) → (state_of (send io message s)).connection ≡ s.connection
  unfolding send
  send-connection message s = ground arith

  pub send_keeps :
      (message : Text) (s : Connected W) (fd : ℤ)
      → is_open fd (state_of (send io message s)).world ≡ is_open fd s.world
  unfolding send
  send_keeps message s fd = elim (Option-cases s.connection.m_fifo_fd) [
    | inl e ↦ ground (arith, e)
    | inr (d, e) ↦ ground (arith, e, put_message_keeps d message s.world fd)
  ]

  pub receive-connection :
      (rounds : ℕ) (s : Connected W) → (state_of (receive io rounds s)).connection ≡ s.connection
  unfolding receive
  receive-connection rounds s = ground arith

  pub receive_keeps :
      (rounds : ℕ) (s : Connected W) (fd : ℤ)
      → is_open fd (state_of (receive io rounds s)).world ≡ is_open fd s.world
  unfolding receive
  receive_keeps rounds s fd = elim (Option-cases s.connection.m_fifo_fd) [
    | inl e ↦ ground (arith, e)
    | inr (d, e) ↦
        ground (arith, e, read_rounds_keeps rounds s.connection.m_is_blocking d s.world fd)
  ]

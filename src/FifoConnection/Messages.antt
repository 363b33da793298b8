-- ===== src/FifoConnection/Messages.antt =====
-- What comes out of a named pipe into which a message was sent.
use okssystem.Prelude.{
  ℕ, suc, ◌-◌, ◌≤◌, ◌<◌, ◌≡◌, ◌≢◌, refl, ap, ◌∙◌, sym, Bool, true, arith, some, [], ◌∷◌, ◌++◌,
  length, take, drop, take-length, length-take, All-take, Text, Lacks, ℤ, ok,
}
use okssystem.Calls.{done, IoCalls}
use okssystem.StringMemoryArea.Memory.{c_str_of_Lacks}
use okssystem.Descriptor.{Descriptor, read, write}
use okssystem.FifoConnection.{
  Connected, max_message_len, sent_length, can_send, read_rounds, put_message, send, receive,
}

-- The bytes that stand in the pipe: `write` takes all bytes, `read` gives as many as it may.
pub record IsPipe {W : Type 0} (io : IoCalls W) (content : W → Text) : Type 0 where
  pub writes :
      (fd : ℤ) (bytes : Text) (w : W)
      → ((io.write fd bytes w).0 ≡ done (length bytes))
        × (content (io.write fd bytes w).1 ≡ content w ++ bytes)
  pub reads :
      (fd : ℤ) (n : ℕ) (w : W)
      → ((io.read fd n w).0 ≡ done (take n (content w)))
        × (content (io.read fd n w).1 ≡ drop n (content w))

pub sendable :
    (message : Text) → message ≢ [] → length message ≤ max_message_len → can_send message ≡ true
sendable [] full short = absurd (full refl)
sendable (x ∷ message) full short = ground arith

module _ {W : Type 0} (io : IoCalls W) (content : W → Text) (laws : IsPipe io content) where
  write_whole :
      (d : Descriptor) (bytes : Text) (w : W)
      → write io d bytes w ≡ ok (length bytes) (io.write d.m_fd bytes w).1
  unfolding write
  write_whole d bytes w = rw ((laws.writes d.m_fd bytes w).0, write) refl

  read_front :
      (d : Descriptor) (n : ℕ) (w : W)
      → read io d n w ≡ ok (take n (content w)) (io.read d.m_fd n w).1
  unfolding read
  read_front d n w = rw ((laws.reads d.m_fd n w).0, read) refl

  pub put_message_lem :
      (d : Descriptor) (message : Text) (w : W)
      → length message ≤ max_message_len
      → (w' : W) × (put_message io d message w ≡ ok tt w') × (content w' ≡ content w ++ message)
  unfolding put_message
  put_message_lem d message w h =
      let whole : take (sent_length message) message ≡ message =
        take-length (sent_length message) message (omega arith) in
      let w' = (io.write d.m_fd message w).1 in
      (
        w',
        rw (whole, put_message) (rw (write_whole d message w) refl),
        (laws.writes d.m_fd message w).1,
      )

  read_rounds_front :
      (rounds : ℕ) (is_blocking : Bool) (d : Descriptor) (w w' : W) (text : Text)
      → read io d (max_message_len - 1) w ≡ ok text w'
      → text ≢ []
      → length text < max_message_len
      → Lacks 0 text
      → read_rounds io (suc rounds) is_blocking d w ≡ ok text w'
  unfolding read_rounds
  read_rounds_front rounds is_blocking d w w' [] e full short h = absurd (full refl)
  read_rounds_front rounds is_blocking d w w' (x ∷ text) e full short h =
      ground (arith, e, short, c_str_of_Lacks (x ∷ text) h)

  take_full : (n : ℕ) (t : Text) → t ≢ [] → take (suc n) t ≢ []
  take_full n [] full = full
  take_full n (x ∷ t) full = λ e. cc

  pub read_rounds_lem :
      (rounds : ℕ) (is_blocking : Bool) (d : Descriptor) (w : W)
      → content w ≢ []
      → Lacks 0 (content w)
      → (w' : W) × (read_rounds io (suc rounds) is_blocking d w
          ≡ ok (take (max_message_len - 1) (content w)) w')
        × (content w' ≡ drop (max_message_len - 1) (content w))
  read_rounds_lem rounds is_blocking d w full h =
      let w' = (io.read d.m_fd (max_message_len - 1) w).1 in
      let text = take (max_message_len - 1) (content w) in
      (
        w',
        read_rounds_front rounds is_blocking d w w' text (read_front d (max_message_len - 1) w)
            (take_full (max_message_len - 2) (content w) full)
            (omega (arith, length-take (max_message_len - 1) (content w)))
            (All-take _ (max_message_len - 1) (content w) h),
        (laws.reads d.m_fd (max_message_len - 1) w).1,
      )

  send_step :
      (s : Connected W) (d : Descriptor) (message : Text) (w : W)
      → s.connection.m_fifo_fd ≡ some d
      → can_send message ≡ true
      → put_message io d message s.world ≡ ok tt w
      → send io message s ≡ ok tt (record s { world = w })
  unfolding send
  send_step s d message w held allowed put = ground (arith, held, allowed, put)

  receive_step :
      (rounds : ℕ) (s : Connected W) (d : Descriptor) (text : Text) (v : W)
      → s.connection.m_fifo_fd ≡ some d
      → read_rounds io rounds s.connection.m_is_blocking d s.world ≡ ok text v
      → receive io rounds s ≡ ok text (record s { world = v })
  unfolding receive
  receive_step rounds s d text v held got = ground (arith, held, got)

  -- On an open connection, if `write` takes all bytes and `read` gives what stands in the pipe
  -- (`IsPipe`): a message of 1 to 512 bytes without NULs that is sent into an empty pipe is
  -- received up to its first 511 bytes, and the rest stays in the pipe: a message of 511 bytes or
  -- less is received whole, the last byte of one with 512 bytes is not.
  pub receive-send :
      (s : Connected W) (d : Descriptor) (message : Text) (rounds : ℕ)
      → s.connection.m_fifo_fd ≡ some d
      → content s.world ≡ []
      → message ≢ []
      → length message ≤ max_message_len
      → Lacks 0 message
      → (t u : Connected W) × (send io message s ≡ ok tt t)
        × (receive io (suc rounds) t ≡ ok (take 511 message) u)
        × (content u.world ≡ drop 511 message)
        × (length message ≤ 511 → take 511 message ≡ message)
  receive-send s d message rounds held empty full short h =
      let (w, put, stands) = put_message_lem d message s.world short in
      let here : content w ≡ message = rw (stands, empty) refl in
      let (v, got, left) =
        read_rounds_lem rounds s.connection.m_is_blocking d w (λ e. full (sym here ∙ e))
          (rw here h) in
      (
        record s { world = w },
        record s { world = v },
        send_step s d message w held (sendable message full short) put,
        receive_step (suc rounds) (record s { world = w }) d (take 511 message) v held
            (got ∙ ap (λ text. ok (take 511 text) v) here),
        left ∙ ap (drop 511) here,
        λ fits. take-length 511 message fits,
      )

-- ===== src/FifoConnection/Exchange/Delivery.antt =====
-- A message from `send_message` to `read_message`.
use okssystem.Prelude.{
  ℕ, suc, ◌≤◌, ◌≡◌, ◌≢◌, refl, ap, sym, ◌∙◌, true, arith, [], ◌++◌, length, take, drop, take-length,
  Text, Lacks, ℤ, pos, Issue, exception, codes, ok, inl, inr,
}
use okssystem.Calls.{done, Stat, UserCalls, FileCalls, IoCalls, Answer-cases}
use okssystem.File.Object.{File, exists, is_fifo, get_mode, file_status, mode_is_fifo}
use okssystem.File.Pretty.{o_wronly}
use okssystem.Descriptor.{Descriptor, open_descriptor, destroy, close_safe}
use okssystem.FifoConnection.{max_message_len, check_fifo, warn_no_fifo, read_message, send_message}
use okssystem.FifoConnection.Messages.{IsPipe, sendable, put_message_lem, read_rounds_lem}

-- Opening and closing descriptors leaves what stands in the pipe alone, and the file is there and
-- can be opened at all times.
pub record IsReady {W : Type 0} (files : FileCalls W) (io : IoCalls W) (content : W → Text)
    (f : File) : Type 0 where
  pub stands : (w : W) → (st : Stat) × (files.stat f.full_name w ≡ done st)
  pub opens : (i_flags : ℕ) (w : W) → (n : ℕ) × ((io.open_file f.full_name i_flags 0 w).0 ≡ done n)
  pub open_keeps :
      (i_flags : ℕ) (w : W) → content (io.open_file f.full_name i_flags 0 w).1 ≡ content w
  pub close_keeps : (fd : ℤ) (w : W) → content (io.close fd w).1 ≡ content w
  pub warning_keeps : (e : Issue) (w : W) → content (io.warning e w) ≡ content w

module _ {W : Type 0} (users : UserCalls W) (files : FileCalls W) (io : IoCalls W)
    (content : W → Text) (f : File) (ready : IsReady files io content f) where
  check_passes :
      (w : W) → (v : W) × (check_fifo users files io f w ≡ ok tt v) × (content v ≡ content w)
  unfolding check_fifo exists is_fifo get_mode file_status
  check_passes w =
      let (st, e) = ready.stands w in
      let fifo = mode_is_fifo st.st_mode in
      (
        warn_no_fifo users files io fifo f w,
        ground (arith, e),
        ground (arith, ready.warning_keeps (exception (f.full_name ++ codes " is not a FIFO")) w),
      )

  destroy_keeps :
      (d : Descriptor) (w : W)
      → content (destroy io (record { descriptor = d; world = w })) ≡ content w
  unfolding destroy close_safe
  destroy_keeps d w = elim (Answer-cases (io.close d.m_fd w).0) [
    | inl (u, e) ↦ ground (arith, e, ready.close_keeps d.m_fd w)
    | inr (errno, e) ↦ ground (
      arith,
      e,
      ready.close_keeps d.m_fd w,
      ready.warning_keeps (Issue.close_file_issue errno d.m_name) (io.close d.m_fd w).1,
    )
  ]

  opening :
      (i_flags : ℕ) (w : W)
      → (d : Descriptor) × (v : W) × (open_descriptor users files io f i_flags 0 w ≡ ok d v)
        × (content v ≡ content w)
  unfolding open_descriptor exists
  opening i_flags w =
      let (n, e) = ready.opens i_flags w in
      let (st, there) = ready.stands w in
      (
        record { m_fd = pos n; m_name = f.full_name },
        (io.open_file f.full_name i_flags 0 w).1,
        ground (arith, e, there),
        ready.open_keeps i_flags w,
      )

  module _ (laws : IsPipe io content) where
    send_message_lem :
        (message : Text) (w : W)
        → message ≢ []
        → length message ≤ max_message_len
        → (v : W) × (send_message users files io f message w ≡ ok tt v)
          × (content v ≡ content w ++ message)
    unfolding send_message
    send_message_lem message w full short =
        let (w1, passes, same) = check_passes w in
        let (d, w2, opened, same') = opening o_wronly w1 in
        let (w3, put, stands) = put_message_lem io content laws d message w2 short in
        (
          destroy io (record { descriptor = d; world = w3 }),
          rw (passes, sendable message full short) (rw opened (rw put refl)),
          destroy_keeps d w3 ∙ stands ∙ ap (λ t. t ++ message) (same' ∙ same),
        )

    read_message_lem :
        (rounds : ℕ) (w : W)
        → content w ≢ []
        → Lacks 0 (content w)
        → (v : W) × (read_message users files io (suc rounds) f w ≡ ok (take 511 (content w)) v)
          × (content v ≡ drop 511 (content w))
    unfolding read_message
    read_message_lem rounds w full h =
        let (w1, passes, same) = check_passes w in
        let (d, w2, opened, same') = opening 0 w1 in
        let here : content w2 ≡ content w = same' ∙ same in
        let (w3, got, left) =
          read_rounds_lem io content laws rounds true d w2 (λ e. full (sym here ∙ e)) (rw here h) in
        (
          destroy io (record { descriptor = d; world = w3 }),
          rw passes (
              rw opened (
                rw got (
                  ap (λ t. ok (take 511 t) (destroy io (record { descriptor = d; world = w3 })))
                    here))),
          destroy_keeps d w3 ∙ left ∙ ap (drop 511) here,
        )

    -- If `write` takes all bytes and `read` gives what stands in the pipe (`IsPipe`), and the pipe
    -- can be opened at all times and keeps its bytes then (`IsReady`): `send_message` of a message
    -- of 1 to 512 bytes without NULs into an empty pipe returns, and `read_message` behind it
    -- returns the first 511 bytes of the message and leaves the rest in the pipe: a message of 511
    -- bytes or less arrives whole.
    pub read_message-send_message :
        (message : Text) (rounds : ℕ) (w : W)
        → content w ≡ []
        → message ≢ []
        → length message ≤ max_message_len
        → Lacks 0 message
        → (u v : W) × (send_message users files io f message w ≡ ok tt u)
          × (read_message users files io (suc rounds) f u ≡ ok (take 511 message) v)
          × (content v ≡ drop 511 message)
          × (length message ≤ 511 → take 511 message ≡ message)
    read_message-send_message message rounds w empty full short h =
        let (u, sent, stands) = send_message_lem message w full short in
        let here : content u ≡ message = rw (stands, empty) refl in
        let (v, got, left) = read_message_lem rounds u (λ e. full (sym here ∙ e)) (rw here h) in
        (
          u,
          v,
          sent,
          got ∙ ap (λ text. ok (take 511 text) v) here,
          left ∙ ap (drop 511) here,
          λ fits. take-length 511 message fits,
        )

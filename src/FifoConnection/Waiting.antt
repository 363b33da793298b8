-- ===== src/FifoConnection/Waiting.antt =====
-- The loop that waits for a message.
use okssystem.Prelude.{
  ℕ, zero, suc, ◌-◌, ◌≤◌, ◌<◌, ◌≡◌, ◌≢◌, refl, ◌∙◌, true, arith, some, [], ◌∷◌, length, Text, ℤ, ok,
  err, stack_overflow,
}
use okssystem.Calls.{done, IoCalls}
use okssystem.StringMemoryArea.{c_str}
use okssystem.Descriptor.{Descriptor, read}
use okssystem.FifoConnection.{Connected, max_message_len, read_rounds, receive}

module _ {W : Type 0} (io : IoCalls W) where
  -- One round that finds nothing, and the pause behind it.
  abbrev pub paused : ℤ → W → W
  paused fd w = io.usleep 100000 (io.read fd (max_message_len - 1) w).1

  -- The system behind a number of such rounds.
  abbrev pub polled : ℤ → ℕ → W → W
  polled fd zero w = w
  polled fd (suc k) w = polled fd k (paused fd w)

  -- That many reads find nothing.
  abbrev pub IsSilent : ℤ → ℕ → W → Type 0
  IsSilent fd zero w = Unit
  IsSilent fd (suc k) w =
      ((io.read fd (max_message_len - 1) w).0 ≡ done []) × IsSilent fd k (paused fd w)

  silent_round :
      (rounds : ℕ) (d : Descriptor) (w : W)
      → (io.read d.m_fd (max_message_len - 1) w).0 ≡ done []
      → read_rounds io (suc rounds) true d w ≡ read_rounds io rounds true d (paused d.m_fd w)
  unfolding read_rounds read
  silent_round rounds d w e = ground (arith, e)

  arrived_round :
      (rounds : ℕ) (d : Descriptor) (w : W) (text : Text)
      → (io.read d.m_fd (max_message_len - 1) w).0 ≡ done text
      → text ≢ []
      → length text < max_message_len
      → read_rounds io (suc rounds) true d w
        ≡ ok (c_str text) (io.read d.m_fd (max_message_len - 1) w).1
  unfolding read_rounds read
  arrived_round rounds d w [] e full short = absurd (full refl)
  arrived_round rounds d w (x ∷ text) e full short = ground (arith, e)

  in_time :
      (k rounds : ℕ) (d : Descriptor) (w : W) (text : Text)
      → IsSilent d.m_fd k w
      → (io.read d.m_fd (max_message_len - 1) (polled d.m_fd k w)).0 ≡ done text
      → text ≢ []
      → length text < max_message_len
      → k < rounds
      → read_rounds io rounds true d w
        ≡ ok (c_str text) (io.read d.m_fd (max_message_len - 1) (polled d.m_fd k w)).1
  in_time k zero d w text silent e full short l = absurd (omega arith)
  in_time zero (suc rounds) d w text silent e full short l =
      arrived_round rounds d w text e full short
  in_time (suc k) (suc rounds) d w text (quiet, silent) e full short l =
      silent_round rounds d w quiet
      ∙ in_time k rounds d (paused d.m_fd w) text silent e full short (omega arith)

  too_early :
      (d : Descriptor) (k rounds : ℕ) (w : W)
      → IsSilent d.m_fd k w
      → rounds ≤ k
      → (v : W) × (read_rounds io rounds true d w ≡ err stack_overflow v)
  unfolding read_rounds
  too_early d k zero w h l = (w, refl)
  too_early d zero (suc rounds) w h l = absurd (omega arith)
  too_early d (suc k) (suc rounds) w (e, h) l =
      let (v, same) = too_early d k rounds (paused d.m_fd w) h (omega arith) in
      (v, silent_round rounds d w e ∙ same)

  receive-ok :
      (rounds : ℕ) (s : Connected W) (d : Descriptor) (text : Text) (w : W)
      → s.connection.m_fifo_fd ≡ some d
      → s.connection.m_is_blocking ≡ true
      → read_rounds io rounds true d s.world ≡ ok text w
      → receive io rounds s ≡ ok text (record s { world = w })
  unfolding receive
  receive-ok rounds s d text w held blocking e = ground (arith, held, blocking, e)

  receive-err :
      (rounds : ℕ) (s : Connected W) (d : Descriptor) (w : W)
      → s.connection.m_fifo_fd ≡ some d
      → s.connection.m_is_blocking ≡ true
      → read_rounds io rounds true d s.world ≡ err stack_overflow w
      → receive io rounds s ≡ err stack_overflow (record s { world = w })
  unfolding receive
  receive-err rounds s d w held blocking e = ground (arith, held, blocking, e)

  -- On an open blocking connection, if the first reads find nothing and the one behind them finds a
  -- text of 1 to 511 bytes, then `read` makes exactly that many pauses and returns the text up to its
  -- first NUL: with more rounds than pauses it has returned, with fewer it still waits.
  pub receive_arrives :
      (s : Connected W) (d : Descriptor) (k rounds : ℕ) (text : Text)
      → s.connection.m_fifo_fd ≡ some d
      → s.connection.m_is_blocking ≡ true
      → IsSilent d.m_fd k s.world
      → (io.read d.m_fd (max_message_len - 1) (polled d.m_fd k s.world)).0 ≡ done text
      → text ≢ []
      → length text < max_message_len
      → (k < rounds
          → receive io rounds s
            ≡ ok (c_str text) (record s {
              world = (io.read d.m_fd (max_message_len - 1) (polled d.m_fd k s.world)).1;
            }))
        × (rounds ≤ k → (t : Connected W) × (receive io rounds s ≡ err stack_overflow t))
  receive_arrives s d k rounds text held blocking silent there full short = (
    λ more.
        receive-ok rounds s d (c_str text) _ held blocking
          (in_time k rounds d s.world text silent there full short more),
    λ fewer.
        let (v, waits) = too_early d k rounds s.world silent fewer in
        (record s { world = v }, receive-err rounds s d v held blocking waits),
  )

-- ===== src/FifoConnection.antt =====
-- src/FIFOConnection.cpp: messages through a named pipe.
pub mod Opening
pub mod Messages
pub mod Waiting
pub mod Sessions
pub mod Exchange
use Prim.Native.Nat.{bit_or}
use okssystem.Prelude.{
  ℤ, ℕ, zero, suc, ◌%◌, ◌^◌, Bool, true, false, not, ◌&&◌, ◌-◌, ltb, leb, ◌==◌, if◌then◌else◌,
  Option, none, some, List, [], ◌∷◌, ◌++◌, length, take, Text, codes, is_empty, Issue, exception,
  open_file_issue, stack_overflow, M, Out, ok, err, pure, throw, ensure, ◌>>=◌, ◌>>◌,
}
use okssystem.Calls.{UserCalls, FileCalls, IoCalls}
use okssystem.StringMemoryArea.{c_str}
use okssystem.File.Object.{File, file, exists, is_fifo}
use okssystem.File.Directories.{make_fifo}
use okssystem.File.Copies.{copy_file}
use okssystem.File.Pretty.{o_wronly, o_rdwr, o_nonblock}
use okssystem.Descriptor.{Descriptor, Held, open_descriptor, destroy, read, write}

abbrev pub max_message_len : ℕ
max_message_len = 512

pub record FifoConnection : Type 0 where
  pub m_file : File
  pub m_fifo_fd : Option Descriptor
  pub m_is_blocking : Bool

-- The object and the system around it.
pub record Connected (W : Type 0) : Type 0 where
  pub connection : FifoConnection
  pub world : W

-- The fields behind the construction of the base class.
abbrev pub connection_of : File → FifoConnection
connection_of f = record { m_file = f; m_fifo_fd = none; m_is_blocking = true }

-- `fd`
abbrev pub fifo_fd : {W : Type 0} → M (Connected W) ℤ
fifo_fd s = elim s.connection.m_fifo_fd [ none ↦ err Issue.assertion s | some d ↦ ok d.m_fd s ]

-- The end of the block, or the stack unwinding, closes a local descriptor.
abbrev pub leave_scope : {W A : Type 0} → (W → W) → Out W A → Out W A
leave_scope destructor (ok a w) = ok a (destructor w)
leave_scope destructor (err e w) = err e (destructor w)

-- `ERS_RANGE_CHECK(1,l,MAX_MESSAGE_LEN)` for `const unsigned int l = message.size()`
abbrev pub sent_length : Text → ℕ
sent_length message = length message % 2 ^ 32

abbrev pub can_send : Text → Bool
can_send message = leb 1 (sent_length message) && leb (sent_length message) max_message_len

module _ {W : Type 0} (io : IoCalls W) where
  -- The loop of `read`, and with `true` the one of `read_message`, which returns no empty message.
  -- The first argument bounds the rounds.
  unfoldable pub read_rounds : ℕ → Bool → Descriptor → M W Text
  unfolding read c_str
  read_rounds zero is_blocking d w = err stack_overflow w
  read_rounds (suc rounds) is_blocking d w = elim (read io d (max_message_len - 1) w) [
    | err e w' ↦ err e w'
    | ok [] w' ↦
        if is_blocking then read_rounds rounds is_blocking d (io.usleep 100000 w') else ok [] w'
    | ok (x ∷ buffer) w' ↦
        if ltb (length (x ∷ buffer)) max_message_len
        then ok (c_str (x ∷ buffer)) w'
        else err Issue.assertion w'
  ]

  -- What `send` and `send_message` do with the descriptor.
  unfoldable pub put_message : Descriptor → Text → M W (Unit {0})
  unfolding write
  put_message d message w = elim (write io d (take (sent_length message) message) w) [
    | ok n w' ↦ ok tt w'
    | err e w' ↦ err e w'
  ]

  unfoldable pub send : Text → M (Connected W) (Unit {0})
  unfolding put_message
  send message s = elim s.connection.m_fifo_fd [
    | none ↦ err Issue.assertion s
    | some d ↦
        if can_send message
        then elim (put_message d message s.world) [
          | ok a w ↦ ok tt (record s { world = w })
          | err e w ↦ err e (record s { world = w })
        ]
        else err Issue.assertion s
  ]

  -- `read`
  unfoldable pub receive : ℕ → M (Connected W) Text
  unfolding read_rounds
  receive rounds s = elim s.connection.m_fifo_fd [
    | none ↦ err Issue.assertion s
    | some d ↦ elim (read_rounds rounds s.connection.m_is_blocking d s.world) [
      | ok message w ↦ ok message (record s { world = w })
      | err e w ↦ err e (record s { world = w })
    ]
  ]

  abbrev pub delete_fd : Option Descriptor → W → W
  delete_fd none w = w
  delete_fd (some d) w = destroy io (record { descriptor = d; world = w })

  -- `close`, also the destructor
  unfoldable pub close_fifo : Connected W → Connected W
  unfolding destroy
  close_fifo s = record {
    connection = record s.connection { m_fifo_fd = none };
    world = delete_fd s.connection.m_fifo_fd s.world;
  }

module _ {W : Type 0} (users : UserCalls W) (files : FileCalls W) (io : IoCalls W) where
  abbrev pub warn_no_fifo : Bool → File → W → W
  warn_no_fifo true f w = w
  warn_no_fifo false f w = io.warning (exception (f.full_name ++ codes " is not a FIFO")) w

  -- The two checks in front of `read_message` and `send_message`.
  unfoldable pub check_fifo : File → M W (Unit {0})
  unfolding exists is_fifo
  check_fifo f = do
    λ w. ensure (exists users files f w) w
    fifo ← is_fifo users files f
    λ w. ok tt (warn_no_fifo fifo f w)

  unfoldable pub read_message : ℕ → File → M W Text
  unfolding check_fifo read_rounds open_descriptor destroy
  read_message rounds f = do
    check_fifo f
    d ← open_descriptor users files io f 0 0
    λ w.
        leave_scope (λ w'. destroy io (record { descriptor = d; world = w' }))
          (read_rounds io rounds true d w)

  unfoldable pub send_message : File → Text → M W (Unit {0})
  unfolding check_fifo put_message open_descriptor destroy
  send_message f message = do
    check_fifo f
    ensure (can_send message)
    d ← open_descriptor users files io f o_wronly 0
    λ w.
        leave_scope (λ w'. destroy io (record { descriptor = d; world = w' }))
          (put_message io d message w)

  -- What the three methods that open have in common; the first argument is the access mode.
  unfoldable pub open_fifo : ℕ → Bool → M (Connected W) Descriptor
  unfolding open_descriptor
  open_fifo mode block s = elim s.connection.m_fifo_fd [
    | some d ↦ err Issue.assertion s
    | none ↦
        let c = if block then s.connection else record s.connection { m_is_blocking = false } in
        let i_flags = if block then mode else bit_or mode o_nonblock in
        elim (open_descriptor users files io c.m_file i_flags 0 s.world) [
          | ok d w ↦ ok d (record { connection = record c { m_fifo_fd = some d }; world = w })
          | err e w ↦ err e (record { connection = record c { m_fifo_fd = none }; world = w })
        ]
  ]

  unfoldable pub open_r : Bool → M (Connected W) Descriptor
  unfolding open_fifo
  open_r = open_fifo 0

  unfoldable pub open_w : Bool → M (Connected W) Descriptor
  unfolding open_fifo
  open_w = open_fifo o_wronly

  unfoldable pub open_rw : Bool → M (Connected W) Descriptor
  unfolding open_fifo
  open_rw = open_fifo o_rdwr

  -- `FIFOConnection(const std::string &)`
  unfoldable pub fifo_of_name : Text → M W FifoConnection
  unfolding file
  fifo_of_name name = do f ← file users files name; pure (connection_of f)

  -- `FIFOConnection(const File &)`
  unfoldable pub fifo_of_file : File → M W FifoConnection
  unfolding copy_file
  fifo_of_file other = do f ← copy_file users files other; pure (connection_of f)

  -- `make`
  unfoldable pub make : File → ℕ → M W (Unit {0})
  unfolding make_fifo
  make f perm = make_fifo users files f perm

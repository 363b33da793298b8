-- ===== src/FifoConnection/Sessions.antt =====
-- Sequences of calls on one connection.
pub mod Table
pub mod Accounts
use Prim.Native.Nat.{bit_or}
use okssystem.File.Pretty.{o_nonblock}
use okssystem.Prelude.{
  if◌then◌else◌, ℕ, zero, suc, ◌-◌, ◌≡◌, ◌≢◌, ◌⊎◌, inl, inr, refl, ap, ◌∙◌, sym, Bool, true, false,
  Bool-cases, arith, Option, none, some, Option-cases, List, [], take, close_file_issue, ◌∷◌, Text,
  ℤ, pos, negsuc, Issue, Out, Out-cases, ok, err, state_of,
}
use okssystem.Calls.{Answer, Answer-cases, done, failed, UserCalls, FileCalls, IoCalls}
use okssystem.File.Object.{exists, File}
use okssystem.Descriptor.{Descriptor, Held, read, write, destroy, close_safe, open_descriptor}
use okssystem.FifoConnection.{
  Connected, max_message_len, sent_length, read_rounds, put_message, receive, send, open_fifo,
  delete_fd, close_fifo,
}

-- The calls that a client makes; `open` is one of `open_r`, `open_w` and `open_rw`.
pub data Command : Type 0 where
  open_with : ℕ → Bool → Command
  send_text : Text → Command
  receive_in : ℕ → Command
  close_it : Command

-- The client goes on behind a call that throws.
unfoldable pub step :
    {W : Type 0} → UserCalls W → FileCalls W → IoCalls W → Command → Connected W → Connected W
unfolding open_fifo send receive close_fifo
step users files io (open_with mode block) s = state_of (open_fifo users files io mode block s)
step users files io (send_text message) s = state_of (send io message s)
step users files io (receive_in rounds) s = state_of (receive io rounds s)
step users files io close_it s = close_fifo io s

abbrev pub session :
    {W : Type 0} → UserCalls W → FileCalls W → IoCalls W → List Command → Connected W → Connected W
session users files io [] s = s
session users files io (c ∷ commands) s = session users files io commands (step users files io c s)

-- ===== src/Tests/Pipes.antt =====
-- The theorems on named pipes: in the small system, and at a pipe whose state is its bytes.
use okssystem.Prelude.{
  ◌≡◌, ◌≤◌, refl, arith, true, none, some, [], ◌++◌, length, take, drop, Text, codes, pos, ok,
}
use okssystem.Calls.{done, IoCalls, FileCalls}
use okssystem.File.Object.{File}
use okssystem.Descriptor.{Descriptor}
use okssystem.FifoConnection.{Connected, send_message, read_message}
use okssystem.FifoConnection.Messages.{IsPipe}
use okssystem.FifoConnection.Exchange.Delivery.{IsReady, read_message-send_message}
use okssystem.Tests.World.{World, bare_io, bare_files, bare_users}

abbrev pipe : IoCalls Text
pipe = record bare_io {
  read = λ fd number w. (done (take number w), drop number w);
  write = λ fd bytes w. (done (length bytes), w ++ bytes);
}

pipe-IsPipe : IsPipe pipe (λ w. w)
pipe-IsPipe = record { writes = λ fd bytes w. (refl, refl); reads = λ fd n w. (refl, refl) }

abbrev fifo_file : File
fifo_file = record { full_name = codes "/fifo" }

abbrev fourth : Descriptor
fourth = record { m_fd = pos 4; m_name = codes "/fifo" }

abbrev opened : Connected Text
opened = record {
  connection = record { m_file = fifo_file; m_fifo_fd = some fourth; m_is_blocking = true };
  world = [];
}

abbrev unopened : Connected World
unopened = record {
  connection = record { m_file = fifo_file; m_fifo_fd = none; m_is_blocking = true };
  world = [];
}

-- The same pipe as a file that can always be opened.
abbrev pipe_files : FileCalls Text
pipe_files = record bare_files {
  stat = λ p w. done (record { st_mode = 0o10644; st_size = 0; st_uid = 7; st_gid = 7 });
}

pipe-IsReady : IsReady pipe_files pipe (λ w. w) fifo_file
pipe-IsReady = record {
  stands = λ w. (record { st_mode = 0o10644; st_size = 0; st_uid = 7; st_gid = 7 }, refl);
  opens = λ i_flags w. (3, refl);
  open_keeps = λ i_flags w. refl;
  close_keeps = λ fd w. refl;
  warning_keeps = λ e w. refl;
}

read_message-send_message_example :
    (u v : Text) × (send_message bare_users pipe_files pipe fifo_file (codes "start") [] ≡ ok tt u)
    × (read_message bare_users pipe_files pipe 1 fifo_file u ≡ ok (take 511 (codes "start")) v)
    × (v ≡ drop 511 (codes "start"))
    × (length (codes "start") ≤ 511 → take 511 (codes "start") ≡ codes "start")
read_message-send_message_example =
    read_message-send_message bare_users pipe_files pipe (λ w. w) fifo_file pipe-IsReady pipe-IsPipe
      (codes "start") 0 [] refl (ground arith) (omega arith) (ground arith)

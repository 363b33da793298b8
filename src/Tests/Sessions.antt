-- ===== src/Tests/Sessions.antt =====
-- A connection whose message arrives late, and sequences of calls on a table of descriptors.
use okssystem.Prelude.{
  ℕ, ◌-◌, ◌≡◌, ◌<◌, ◌≤◌, refl, arith, true, false, ◌==◌, if◌then◌else◌, none, some, Option, List,
  [], ◌∷◌, codes, pos, ok, err, stack_overflow, state_of,
}
use okssystem.Calls.{done, IoCalls, FileCalls}
use okssystem.File.Object.{File}
use okssystem.Descriptor.{Descriptor}
use okssystem.StringMemoryArea.{c_str}
use okssystem.FifoConnection.{Connected, receive, close_fifo, read_message, send_message}
use okssystem.FifoConnection.Exchange.Closing.{message-closes}
use okssystem.FifoConnection.Waiting.{receive_arrives}
use okssystem.FifoConnection.Sessions.{Command, open_with, send_text, close_it, session}
use okssystem.FifoConnection.Sessions.Accounts.{close_fifo-session}
use okssystem.MapFile.{MapFile, Mapped}
use okssystem.Tests.World.{bare_users, bare_files, bare_io}
use okssystem.Tests.Tables.{Table, is_open, io, io-IsTable}
use okssystem.OksSystemTest.{test_map_file}
use okssystem.OksSystemTest.Mapping.{Behind, test_map_file-Behind}

abbrev fifo_file : File
fifo_file = record { full_name = codes "/fifo" }

abbrev third : Descriptor
third = record { m_fd = pos 3; m_name = codes "/fifo" }

-- The state is the number of pauses until the message is there.
abbrev late : IoCalls ℕ
late = record bare_io {
  read = λ fd n w. (done (if w == 0 then codes "start" else []), w);
  usleep = λ time w. w - 1;
}

abbrev waiting : Connected ℕ
waiting = record {
  connection = record { m_file = fifo_file; m_fifo_fd = some third; m_is_blocking = true };
  world = 2;
}

receive_arrives_example :
    (2 < 5 → receive late 5 waiting ≡ ok (codes "start") (record waiting { world = 0 }))
    × (5 ≤ 2 → (t : Connected ℕ) × (receive late 5 waiting ≡ err stack_overflow t))
unfolding c_str
receive_arrives_example =
    receive_arrives late waiting third 2 5 (codes "start") refl refl (refl, (refl, tt)) refl
      (λ e. ground arith) (omega arith)

-- The second `open` and the `send` throw.
abbrev commands : List Command
commands =
    open_with 0 true ∷ open_with 1 true ∷ send_text (codes "go") ∷ close_it ∷ open_with 2 false ∷ []

abbrev unopened : Connected Table
unopened = record {
  connection = record { m_file = fifo_file; m_fifo_fd = none; m_is_blocking = true };
  world = 0 ∷ [];
}

close_fifo-session_example :
    is_open (pos 1) (close_fifo io (session bare_users bare_files io commands unopened)).world
    ≡ false
close_fifo-session_example =
    close_fifo-session bare_users bare_files io is_open io-IsTable commands unopened (pos 1) refl

abbrev map_of : Option Descriptor → MapFile
map_of descriptor = record {
  m_file = record { full_name = codes "/data" };
  m_map_address = 0;
  m_map_size = 4096;
  m_map_offset = 0;
  m_map_descriptor = descriptor;
  m_map_permission = 0o644;
  m_map_read = true;
  m_map_write = true;
  m_is_mapped = false;
}

abbrev zero_fd : Descriptor
zero_fd = record { m_fd = pos 0; m_name = codes "/data" }

abbrev first_fd : Descriptor
first_fd = record { m_fd = pos 1; m_name = codes "/data" }

abbrev on_table : MapFile → Table → Mapped Table
on_table m table = record { map_file = m; world = table }

abbrev mapped : Option Descriptor → MapFile
mapped descriptor = record (map_of descriptor) { m_map_address = 4096; m_is_mapped = true }

-- The pipe can be opened, but nothing stands in it, and it takes no bytes.
abbrev fifo_files : FileCalls Table
fifo_files = record bare_files {
  stat = λ p w. done (record { st_mode = 0o10644; st_size = 0; st_uid = 7; st_gid = 7 });
}

message-closes_example :
    (is_open (pos 1) (state_of (read_message bare_users fifo_files io 4 fifo_file (0 ∷ [])))
      ≡ false)
    × (is_open
          (pos 1)
          (state_of (send_message bare_users fifo_files io fifo_file (codes "go") (0 ∷ [])))
        ≡ false)
message-closes_example =
    message-closes bare_users fifo_files io is_open io-IsTable fifo_file 4 (codes "go") (0 ∷ [])
      (pos 1) refl

abbrev data_file : File
data_file = record { full_name = codes "/data" }

test_map_file-Behind_example :
    Behind bare_users bare_files io is_open io-IsTable
      (λ v. is_open (pos 1) v ≡ false)
      (test_map_file bare_users bare_files io data_file (0 ∷ []))
test_map_file-Behind_example =
    test_map_file-Behind bare_users bare_files io is_open io-IsTable data_file (0 ∷ []) (pos 1) refl
      refl

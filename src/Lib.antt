-- ===== src/Lib.antt =====
-- Verification of okssystem, the C++ library of wrappers for operating system services.
--
-- The parts of the program and the files that model them (paths from the root of the
-- repository):
-- - include/okssystem/exceptions.hpp: Prelude/Issues.antt. The issue classes are the
--   constructors of `Issue`, and Exceptions.antt has their messages; how ERS joins the message
--   of a class with that of its base is a parameter. `M S A` is a method that reads and changes
--   a state S and returns an A or throws. The ERS macros ERS_PRECONDITION, ERS_ASSERT and
--   ERS_RANGE_CHECK throw `assertion`, with checks enabled.
-- - src/StringMemoryArea.cpp: StringMemoryArea.antt and its children. An `Area` is the bytes of
--   the memory and the offset of the last string; `add`, `clear`, `insert`, `get_string` are
--   the methods of these names, `insert_vector`, `get_vector`, `insert_map`, `get_map` the
--   overloads for vectors and maps. offset_t wraps at 2^32 and size_t at 2^64. Bytes
--   that strcpy writes behind the end of the memory are not followed: the bytes inside are written
--   and the method goes on. A loop or a reader that runs out of the memory in search of a NUL is
--   the issue `memory_fault`, which the program does not throw: behind it nothing is known.
--   Variables.antt describes the area as string variables of its caller,
--   which holds an offset for each.
-- - src/File.cpp: File/Names.antt (functions on names), File/Pretty.antt (texts of permissions,
--   flags and sizes), File/Object.antt (the object and its queries; `file` is set_name and with
--   it the constructors), File/Copies.antt (the constructors from a C string and from another
--   file), File/Directories.antt (what changes the file system) and File/Streams.antt (the
--   streams, by their numbers). A `File` is its full name. The constructor from another file
--   resolves the name again (`copy_file`); `directory`
--   copies each file into its list in this way. The copies that a vector makes when it grows, or
--   when it is a list of a Path, take the name over.
-- - src/User.cpp: User.antt. A `User` is its identifier and the three texts that are cached.
-- - src/Path.cpp: Path.antt, a list of `File` objects; it parses and searches by the operations
--   of File/Object.antt.
-- - src/Process.cpp: Process.antt. The static s_instance is a field of `State`, beside the
--   state of the system; `instance_process` is Process::instance.
-- - src/Descriptor.cpp: Descriptor.antt. A `Descriptor` is its number and name; the methods
--   that change it work on `Held`, a descriptor and the state of the system; `destroy` is the
--   destructor.
-- - src/MapFile.cpp: MapFile.antt, over Descriptor.antt; the methods work on `Mapped`. The
--   destructor and the unwinding of a local descriptor in `zero` (`zero_file`) are written out.
-- - src/FIFOConnection.cpp: FifoConnection.antt, over Descriptor.antt; `receive` is the method
--   read, and `open_fifo` what open_r, open_w and open_rw have in common. A loop that waits for
--   a message is bounded by its first argument.
-- - src/Executable.cpp: Executable.antt (the class, exec and the arrays it builds),
--   Executable/Start.antt (the methods that start a program), Executable/Pipes.antt (copy_fd,
--   pipe_in, okssystem, and File::file_type, which calls them) and Executable/Redirect.antt
--   (pipe_out). A method that forks gives a `Run`: the end of the parent, which returns or
--   throws, or that of the child, which becomes another program or exits; the answer of fork
--   says which process the model follows. The overloads are `exec` and `exec_env`, `start` and
--   `start_env`, and so on.
-- - src/Environment.cpp: Environment.antt.
-- - src/Host.cpp: Host.antt. An address is its number s_addr; s_instance is an argument of
--   `local_instance`.
-- - test/apps/OksSystemTest.cxx: OksSystemTest.antt, steps of the test program that use several
--   parts at once; `Scope` is the end of a block whose destructor may throw.
--
-- The parts meet in the system calls. Calls.antt declares them as records over the state W of
-- the system (`UserCalls`, `FileCalls`, `ProcessCalls`, `IoCalls`, `EnvironmentCalls`,
-- `HostCalls`, `SpawnCalls`, `StreamCalls`): they are parameters of every definition that uses
-- them, and a theorem that relies on what a call does names it as a hypothesis
-- (`GivesAbsolute`, `IsFileSystem`, `IsPipe`, `IsEnvironment`, `IsMask`, `IsPipes`,
-- `KeepsMask`, `IsTable`, `IsDirectory`, `IsTree`, `IsWritable`, `IsModes`, `MakesFifos`,
-- `IsDisk`, `Forks`, `IsReady`). Tests/World.antt, Tests/Pipes.antt, Tests/Tables.antt,
-- Tests/Links.antt, Tests/Trees.antt, Tests/Modes.antt, Tests/Machine.antt and
-- Tests/Variables.antt give small systems in which these hypotheses hold; the files in Tests
-- apply the theorems there. File uses User for home directories, Path uses File, and MapFile
-- and FIFOConnection use File and Descriptor. Executable uses File, Descriptor, Process and
-- Environment.
--
-- Bounds: loops over a text run at most once for each byte, and the recursions of make_path and
-- remove take the bound on their depth as an argument: `ensure_path` gives make_path one more
-- than the length of the name, which is enough because every parent's name is shorter. A
-- recursion beyond its bound is the issue `stack_overflow`. The pieces of a text and the digits
-- of a number are bounded in the same way, by the length and by the number. Numbers are natural
-- numbers; `int` results that may be negative are ℤ, and the values of Linux are taken for the
-- constants of the C headers.
--
-- The loop of copy_fd takes a bound on its rounds; one more than the number of bytes is enough.
-- The number of parameters of a program is taken to fit an int, and `new` to succeed.
--
-- Not modelled: what is read from and written to the C++ streams that File::input and
-- File::output hand out, Executable::exec() without parameters (declared, and defined nowhere),
-- the memory that a failing exec frees, the build files, and of the test application main, the
-- step that writes to a stream and the steps that only print.
pub mod Prelude
pub mod StringMemoryArea
pub mod File
pub mod Calls
pub mod User
pub mod Path
pub mod Process
pub mod Descriptor
pub mod MapFile
pub mod Environment
pub mod Exceptions
pub mod FifoConnection
pub mod Host
pub mod Executable
pub mod OksSystemTest
pub mod Tests

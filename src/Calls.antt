-- ===== src/Calls.antt =====
-- The system calls that the package wraps. None of them is implemented here: each group is a record
-- over the state of the system, a parameter of what calls it. A call that fails gives the value
-- that it leaves in `errno`, which the sources read directly behind it.
use okssystem.Prelude.{
  ℕ, ℤ, Bool, ◌≡◌, refl, ◌⊎◌, inl, inr, Option, List, Text, Issue, M, Out, ok, err,
}

pub data Answer (A : Type 0) : Type 0 where
  done : A → Answer A
  failed : ℕ → Answer A

pub record Stat : Type 0 where
  pub st_mode : ℕ
  pub st_size : ℕ
  pub st_uid : ℕ
  pub st_gid : ℕ

pub record Passwd : Type 0 where
  pub pw_name : Text
  pub pw_uid : ℕ
  pub pw_dir : Text
  pub pw_gecos : Text

-- `getpwnam_r` and `getpwuid_r`: an entry, no entry (with what is in `errno`), or an error code.
pub data PwAnswer : Type 0 where
  found : Passwd → PwAnswer
  not_found : ℕ → PwAnswer
  pw_error : ℕ → PwAnswer

-- <pwd.h> and the user of the process. `sysconf(_SC_GETPW_R_SIZE_MAX)` may give -1 without an error.
-- The second argument of the look-ups is the size of the buffer.
pub record UserCalls (W : Type 0) : Type 0 where
  pub getuid : W → ℕ
  pub sysconf : W → Answer (Option ℕ)
  pub getpwnam_r : Text → ℕ → W → PwAnswer
  pub getpwuid_r : ℕ → ℕ → W → PwAnswer
  pub setuid : ℕ → W → Answer (Unit {0}) × W

-- The file system. `readdir` gives the names in a directory one after the other; here they are the
-- answer of `opendir`.
pub record FileCalls (W : Type 0) : Type 0 where
  pub stat : Text → W → Answer Stat
  pub realpath : Text → W → Option Text
  pub getcwd : W → Answer Text
  pub chdir : Text → W → Answer (Unit {0}) × W
  pub mkdir : Text → ℕ → W → Answer (Unit {0}) × W
  pub chmod : Text → ℕ → W → Answer (Unit {0}) × W
  pub mkfifo : Text → ℕ → W → Answer (Unit {0}) × W
  pub unlink : Text → W → Answer (Unit {0}) × W
  pub rmdir : Text → W → Answer (Unit {0}) × W
  pub rename : Text → Text → W → Answer (Unit {0}) × W
  pub tempnam : Text → Text → W → Answer Text × W
  pub opendir : Text → W → Answer (List Text)
  pub closedir : Text → W → Answer (Unit {0})

-- What `waitpid` leaves: its result, the status of the child and `errno`.
pub record Waited : Type 0 where
  pub pid : ℤ
  pub status : ℕ
  pub errno : ℕ

-- <unistd.h>, <signal.h> and <sys/wait.h>, with the macros that read a status.
pub record ProcessCalls (W : Type 0) : Type 0 where
  pub getpid : W → ℤ
  pub waitpid : ℤ → W → Waited × W
  pub kill : ℤ → ℕ → W → Answer (Unit {0}) × W
  pub wifexited : ℕ → Bool
  pub wexitstatus : ℕ → ℤ
  pub wifsignaled : ℕ → Bool
  pub wtermsig : ℕ → ℕ
  pub wifstopped : ℕ → Bool
  pub wstopsig : ℕ → ℕ

-- What `fork` gives: the process that continues is the child, or the parent of a child with an
-- identifier, or there is no child.
pub data Forked : Type 0 where
  in_child : Forked
  in_parent : ℕ → Forked
  no_child : ℕ → Forked

-- <unistd.h>, <signal.h> and <stdlib.h>, as src/Executable.cpp uses them. `sigmask` is
-- `pthread_sigmask` with SIG_SETMASK, which gives the old mask; `execv` and `execve` return only if
-- they fail; `calloc` says whether there is memory, `strdup` gives the copy; `errno` is what stands
-- there when the sources read it later.
pub record SpawnCalls (W : Type 0) : Type 0 where
  pub sigmask : ℕ → W → ℕ × W
  pub fork : W → Forked × W
  pub set_default : ℕ → W → W
  pub set_ignored : ℕ → W → W
  pub execv : Text → List Text → W → Answer (Unit {0})
  pub execve : Text → List Text → List Text → W → Answer (Unit {0})
  pub calloc : ℕ → W → Bool
  pub strdup : Text → W → Option Text
  pub pipe : W → Answer (ℤ × ℤ) × W
  pub dup2 : ℤ → ℤ → W → W
  pub errno : W → ℕ

-- Open files, mapped memory and the warnings of ERS. `open` gives a descriptor, `write` takes the
-- bytes and `read` gives them; `open_file` is `open`; `fcntl` is called with F_GETFD and with F_SETFD.
pub record IoCalls (W : Type 0) : Type 0 where
  pub open_file : Text → ℕ → ℕ → W → Answer ℕ × W
  pub fchmod : ℤ → ℕ → W → W
  pub close : ℤ → W → Answer (Unit {0}) × W
  pub read : ℤ → ℕ → W → Answer Text × W
  pub write : ℤ → Text → W → Answer ℕ × W
  pub get_flags : ℤ → W → Answer ℕ
  pub set_flags : ℤ → ℕ → W → Answer (Unit {0}) × W
  pub strerror : ℕ → Text
  pub warning : Issue → W → W
  pub usleep : ℕ → W → W
  pub getpagesize : W → ℕ
  pub mmap : ℕ → ℕ → ℕ → ℤ → ℕ → W → Answer ℕ × W
  pub munmap : ℕ → ℕ → W → Answer (Unit {0}) × W

-- <fstream>: a new stream for a file, by its number, or a stream whose `exceptions` throws. The
-- second argument of `ofstream` says whether it appends; if not, the file is emptied.
pub record StreamCalls (W : Type 0) : Type 0 where
  pub ifstream : Text → W → Answer ℕ × W
  pub ofstream : Text → Bool → W → Answer ℕ × W

-- `setenv`, which replaces an old value, and `getenv`.
pub record EnvironmentCalls (W : Type 0) : Type 0 where
  pub setenv : Text → Text → W → Answer (Unit {0}) × W
  pub getenv : Text → W → Option Text

-- <netdb.h> and <sys/utsname.h>: the first address of a name (0 is 0.0.0.0), the name of an address,
-- an address as text, and the names of the system.
pub record UtsName : Type 0 where
  pub sysname : Text
  pub nodename : Text
  pub release : Text
  pub version : Text
  pub machine : Text

pub record HostCalls (W : Type 0) : Type 0 where
  pub getaddrinfo : Text → W → Option ℕ
  pub getnameinfo : ℕ → W → Option Text
  pub inet_ntoa : ℕ → Text
  pub uname : W → Option UtsName
  pub gethostname : W → Option Text

-- `const int status = call(...); if (0 == status) return; throw issue(errno)`
abbrev pub checked : {W A : Type 0} → Answer A × W → (ℕ → Issue) → Out W A
checked (done a, w) issue = ok a w
checked (failed errno, w) issue = err (issue errno) w

-- The same for a call that changes nothing.
abbrev pub asked : {W A : Type 0} → Answer A → (ℕ → Issue) → M W A
asked (done a) issue w = ok a w
asked (failed errno) issue w = err (issue errno) w

pub Answer-cases :
    {A : Type 0} (a : Answer A) → ((x : A) × (a ≡ done x)) ⊎ ((errno : ℕ) × (a ≡ failed errno))
Answer-cases (done x) = inl (x, refl)
Answer-cases (failed errno) = inr (errno, refl)

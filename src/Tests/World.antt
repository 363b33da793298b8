-- ===== src/Tests/World.antt =====
-- A small system: the state is the list of the paths that exist beside the root directory, all of
-- them directories; the user database has one user.
use okssystem.Prelude.{
  ℕ, ◌==◌, ◌≡◌, Bool, true, false, ◌||◌, ◌&&◌, none, some, List, [], ◌∷◌, if◌then◌else◌, arith,
  Text, codes, text_eq, text_eq_refl, refl, ℤ, pos, negsuc,
}
use okssystem.Calls.{
  Answer, done, failed, Stat, Passwd, PwAnswer, found, not_found, UserCalls, FileCalls,
  ProcessCalls, IoCalls,
}
use okssystem.User.Resolve.{look_up}
use okssystem.File.Names.{slash_char, starts_with_slash}
use okssystem.File.Object.Absolute.{GivesAbsolute}
use okssystem.File.Directories.MakePath.{IsFileSystem}

abbrev pub World : Type 0
World = List Text

abbrev pub admin : Passwd
admin = record {
  pw_name = codes "admin";
  pw_uid = 7;
  pw_dir = codes "/home/admin";
  pw_gecos = codes "The Admin";
}

abbrev users_answer : Bool → PwAnswer
users_answer true = found admin
users_answer false = not_found 0

abbrev pub users : UserCalls World
users = record {
  getuid = λ w. 7;
  sysconf = λ w. done none;
  getpwnam_r = λ name size w. users_answer (text_eq name (codes "admin"));
  getpwuid_r = λ id size w. users_answer (id == 7);
  setuid = λ id w. (failed 1, w);
}

abbrev pub has_path : Text → World → Bool
has_path p [] = text_eq p (slash_char ∷ [])
has_path p (q ∷ w) = text_eq p q || has_path p w

abbrev directory_stat : Stat
directory_stat = record { st_mode = 0o40755; st_size = 4096; st_uid = 7; st_gid = 7 }

abbrev pub files : FileCalls World
files = record {
  stat = λ p w. if has_path p w then done directory_stat else failed 2;
  realpath = λ p w. if starts_with_slash p && has_path p w then some p else none;
  getcwd = λ w. done (codes "/work");
  chdir = λ p w. (done tt, w);
  mkdir = λ p mode w. (done tt, p ∷ w);
  chmod = λ p mode w. (done tt, w);
  mkfifo = λ p mode w. (failed 1, w);
  unlink = λ p w. (failed 1, w);
  rmdir = λ p w. (failed 1, w);
  rename = λ p q w. (failed 1, w);
  tempnam = λ dir prefix w. (failed 1, w);
  opendir = λ p w. done [];
  closedir = λ p w. done tt;
}

pub root_there : (w : World) → has_path (slash_char ∷ []) w ≡ true
root_there [] = refl
root_there (q ∷ w) = ground (arith, root_there w)

pub files-IsFileSystem : IsFileSystem files
files-IsFileSystem = record {
  root_exists = λ w. ground (arith, root_there w);
  real_exists = λ p q w e. ground arith;
  mkdir_makes = λ p m w e. ground (arith, text_eq_refl p);
  chmod_keeps = λ p q m w e. e;
}

pub users-GivesAbsolute : GivesAbsolute users files
unfolding look_up
users-GivesAbsolute = record {
  absolute_cwd = λ w d e. ground arith;
  absolute_real = λ p q w e. ground arith;
  absolute_home = λ id w p e. ground arith;
}

-- Process 5 runs this program; process 6 is a child that has exited with 3, and no other runs.
abbrev status_of : ℤ → ℕ
status_of (pos n) = if n == 6 then 3 else 0
status_of (negsuc n) = 0

abbrev is_child : ℤ → Bool
is_child (pos n) = n == 6
is_child (negsuc n) = false

abbrev pub processes : ProcessCalls World
processes = record {
  getpid = λ w. pos 5;
  waitpid = λ pid w. (record { pid = pid; status = status_of pid; errno = 0 }, w);
  kill = λ pid number w. (
    if is_child pid then done tt else failed 3,
    if number == 0 then w else codes "signalled" ∷ w,
  );
  wifexited = λ status. true;
  wexitstatus = λ status. pos status;
  wifsignaled = λ status. false;
  wtermsig = λ status. 0;
  wifstopped = λ status. false;
  wstopsig = λ status. 0;
}

abbrev unmapped : World → Answer (Unit {0}) × World
unmapped [] = (failed 22, [])
unmapped (q ∷ w) = (done tt, w)

-- Every file opens as descriptor 3; a mapping stands in the state until it is unmapped.
abbrev pub io : IoCalls World
io = record {
  open_file = λ name flags mode w. (done 3, w);
  fchmod = λ fd mode w. w;
  close = λ fd w. (done tt, w);
  read = λ fd number w. (done [], w);
  write = λ fd bytes w. (failed 28, w);
  get_flags = λ fd w. done 0;
  set_flags = λ fd flags w. (done tt, w);
  strerror = λ errno. codes "error";
  warning = λ issue w. w;
  usleep = λ time w. w;
  getpagesize = λ w. 4096;
  mmap = λ size prot flags fd offset w. (done 4096, codes "map" ∷ w);
  munmap = λ address size w. unmapped w;
}

-- Calls that fail or change nothing, over any state.
abbrev pub bare_users : {W : Type 0} → UserCalls W
bare_users = record {
  getuid = λ w. 7;
  sysconf = λ w. done none;
  getpwnam_r = λ name size w. not_found 0;
  getpwuid_r = λ id size w. not_found 0;
  setuid = λ id w. (failed 1, w);
}

abbrev pub bare_files : {W : Type 0} → FileCalls W
bare_files = record {
  stat = λ p w. failed 2;
  realpath = λ p w. none;
  getcwd = λ w. done (codes "/work");
  chdir = λ p w. (done tt, w);
  mkdir = λ p mode w. (failed 1, w);
  chmod = λ p mode w. (done tt, w);
  mkfifo = λ p mode w. (failed 1, w);
  unlink = λ p w. (failed 1, w);
  rmdir = λ p w. (failed 1, w);
  rename = λ p q w. (failed 1, w);
  tempnam = λ dir prefix w. (failed 1, w);
  opendir = λ p w. done [];
  closedir = λ p w. done tt;
}

abbrev pub bare_io : {W : Type 0} → IoCalls W
bare_io = record {
  open_file = λ name flags mode w. (done 3, w);
  fchmod = λ fd mode w. w;
  close = λ fd w. (done tt, w);
  read = λ fd n w. (done [], w);
  write = λ fd bytes w. (failed 28, w);
  get_flags = λ fd w. done 0;
  set_flags = λ fd flags w. (done tt, w);
  strerror = λ errno. codes "error";
  warning = λ issue w. w;
  usleep = λ time w. w;
  getpagesize = λ w. 4096;
  mmap = λ size prot flags fd offset w. (failed 19, w);
  munmap = λ address size w. (failed 22, w);
}

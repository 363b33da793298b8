-- ===== src/Descriptor.antt =====
-- src/Descriptor.cpp: the owner of a file descriptor.
pub mod Closing
pub mod Table
use Prim.Native.Nat.{bit_or}
use okssystem.Prelude.{
  ℕ, ◌+◌, Bool, true, false, not, ◌&&◌, if◌then◌else◌, List, [], ◌∷◌, ◌++◌, Text, codes, length, ℤ,
  pos, negsuc, is_negative, Issue, open_file_issue, close_file_issue, read_issue, write_issue,
  oks_system_call_issue, M, Out, ok, err, pure, throw, ◌>>=◌, ◌>>◌,
}
use okssystem.Calls.{Answer, done, failed, UserCalls, FileCalls, IoCalls, checked}
use okssystem.File.Object.{File, exists}
use okssystem.File.Pretty.{has_bit, o_wronly, o_rdwr, o_creat}

abbrev pub fd_cloexec : ℕ
fd_cloexec = 1

-- `flags`; O_RDONLY is 0.
unfoldable pub flags : Bool → Bool → ℕ
flags read_mode write_mode =
    if read_mode && write_mode
    then bit_or o_rdwr o_creat
    else if read_mode
    then 0
    else if write_mode
    then bit_or o_wronly o_creat
    else 0

pub record Descriptor : Type 0 where
  pub m_fd : ℤ
  pub m_name : Text

-- A descriptor and the system around it: what the methods that change the object work on.
pub record Held (W : Type 0) : Type 0 where
  pub descriptor : Descriptor
  pub world : W

module _ {W : Type 0} (io : IoCalls W) where
  unfoldable pub close : M (Held W) (Unit {0})
  close held =
      let d = held.descriptor in
      let (result, w) = io.close d.m_fd held.world in
      elim result [
        | done a ↦ ok tt (record { descriptor = record d { m_fd = negsuc 0 }; world = w })
        | failed errno ↦ err (close_file_issue errno d.m_name) (record held { world = w })
      ]

  abbrev warn_if : Answer (Unit {0}) → Text → W → W
  warn_if (done a) name w = w
  warn_if (failed errno) name w = io.warning (close_file_issue errno name) w

  -- `close_safe` leaves the object as it was.
  unfoldable pub close_safe : Descriptor → W → W
  close_safe d w = let (result, w') = io.close d.m_fd w in warn_if result d.m_name w'

  -- `~Descriptor`
  unfoldable pub destroy : Held W → W
  unfolding close_safe
  destroy held =
      if not (is_negative held.descriptor.m_fd)
      then close_safe held.descriptor held.world
      else held.world

  unfoldable pub read : Descriptor → ℕ → M W Text
  read d number w = checked (io.read d.m_fd number w) (λ errno. read_issue errno d.m_name)

  unfoldable pub write : Descriptor → Text → M W ℕ
  write d buffer w = checked (io.write d.m_fd buffer w) (λ errno. write_issue errno d.m_name)

  abbrev cloexec_issue : Descriptor → ℕ → Issue
  cloexec_issue d errno = oks_system_call_issue errno (codes "fcntl") (
      codes "File descriptor for file "
      ++ (d.m_name ++ (codes " will not be closed after exec. Reason: " ++ io.strerror errno)))

  -- `closeOnExec`
  unfoldable pub close_on_exec : Descriptor → M W (Unit {0})
  close_on_exec d w = elim (io.get_flags d.m_fd w) [
    | done old_flags ↦
        checked (io.set_flags d.m_fd (bit_or old_flags fd_cloexec) w) (cloexec_issue d)
    | failed errno ↦ err (cloexec_issue d errno) w
  ]

module _ {W : Type 0} (users : UserCalls W) (files : FileCalls W) (io : IoCalls W) where
  -- `fchmod` where `open` has made the file; its result is ignored.
  abbrev set_mode : Bool → ℕ → ℕ → ℕ → W → W
  set_mode already_exists fd i_flags perm w =
      if not already_exists && has_bit i_flags o_creat then io.fchmod (pos fd) perm w else w

  -- The constructor and `open`. If they throw there is no object.
  unfoldable pub open_descriptor : File → ℕ → ℕ → M W Descriptor
  unfolding exists
  open_descriptor file i_flags perm w =
      let already_exists = exists users files file w in
      let (result, w') = io.open_file file.full_name i_flags perm w in
      elim result [
        | done fd ↦
            ok (record { m_fd = pos fd; m_name = file.full_name })
              (set_mode already_exists fd i_flags perm w')
        | failed errno ↦ err (open_file_issue errno file.full_name) w'
      ]

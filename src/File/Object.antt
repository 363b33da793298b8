-- ===== src/File/Object.antt =====
-- src/File.cpp: the object `File`: how it gets its name, and the methods that ask the file system.
pub mod Absolute
pub mod Types
use okssystem.Prelude.{
  ℕ, zero, suc, ◌+◌, ◌-◌, ◌/◌, ◌%◌, Bool, true, false, Option, none, some, List, [], ◌∷◌, ◌++◌, not,
  ◌==◌, ◌&&◌, if◌then◌else◌, length, take, drop, Text, codes, text_eq, is_empty, find, Issue,
  oks_system_call_issue, out_of_range, M, Out, ok, err, pure, throw, ensure, ◌>>=◌, ◌>>◌, ℤ,
}
use okssystem.Calls.{Answer, done, failed, Stat, UserCalls, FileCalls, asked, checked}
use okssystem.User.{User, current_user, of_name, home, of_uid}
use okssystem.File.Names.{
  slash_char, file_protocol, protocol, uri, parent_name, short_name, extension, depth,
}
use okssystem.File.Pretty.{has_bit, pretty_permissions}

pub record File : Type 0 where
  pub full_name : Text

-- The three tests of a mode: `mode & S_IFREG`, `mode & S_IFDIR`, `mode & S_IFIFO`.
abbrev pub mode_is_regular : ℕ → Bool
mode_is_regular mode = has_bit mode 0o100000

abbrev pub mode_is_directory : ℕ → Bool
mode_is_directory mode = has_bit mode 0o40000

abbrev pub mode_is_fifo : ℕ → Bool
mode_is_fifo mode = has_bit mode 0o10000

-- `equals`, `operator==`
unfoldable pub same_file : File → File → Bool
same_file a b = text_eq a.full_name b.full_name

-- `operator<<`
unfoldable pub file_string : File → Text
file_string f = file_protocol ++ (codes ":/" ++ f.full_name)

-- `short_name`, `extension` and `depth` of the object
abbrev pub file_short_name : File → Text
file_short_name f = short_name f.full_name

abbrev pub file_extension : File → Text
file_extension f = extension f.full_name

abbrev pub file_depth : File → ℤ
file_depth f = depth f.full_name

abbrev pub answered : {A : Type 0} → Answer A → Bool
answered (done a) = true
answered (failed errno) = false

module _ {W : Type 0} (users : UserCalls W) (files : FileCalls W) where
  unfoldable pub working_directory : M W Text
  working_directory w =
      asked (files.getcwd w)
        (λ errno.
          oks_system_call_issue errno (codes "getcwd")
            (codes "getting the current working directory"))
        w

  unfoldable pub set_working_directory : File → M W (Unit {0})
  set_working_directory dir w = checked (files.chdir dir.full_name w) (λ errno.
      oks_system_call_issue errno (codes "chdir") (codes "on directory " ++ dir.full_name))

  abbrev pub home_owner : Text → M W User
  home_owner user_name w =
      if is_empty user_name then ok (current_user users w) w else of_name users user_name w

  -- The user before the slash, its home directory, and the rest of the path.
  unfoldable pub home_path : ℕ → Text → M W Text
  unfolding home of_name current_user
  home_path slash path = do
    user ← home_owner (take (slash - 1) (drop 1 path))
    resolved ← home users user
    pure (resolved.user_home ++ drop slash path)

  -- `path.substr(slash)` throws if no slash stands in the path.
  unfoldable pub expand_home : Text → M W Text
  unfolding home_path
  expand_home [] w = throw Issue.assertion w
  expand_home (c ∷ path) w =
      (do
        ensure (c == b'~')
        elim (find slash_char (c ∷ path)) [
          | none ↦ throw out_of_range
          | some slash ↦ home_path slash (c ∷ path)
        ])
        w

  abbrev pub long_path : ℕ → Text → M W Text
  long_path c name =
      if c == slash_char
      then pure name
      else if c == b'~'
      then expand_home name
      else (do directory ← working_directory; pure (directory ++ (codes "/" ++ name)))

  -- `set_name`, and with it the constructors of a name
  unfoldable pub file : Text → M W File
  unfolding expand_home working_directory
  file [] w = throw Issue.assertion w
  file (c ∷ name) w =
      (do
        path ← long_path c (c ∷ name)
        λ w. elim (files.realpath path w) [
          | none ↦ ok (record { full_name = path }) w
          | some resolved ↦ ok (record { full_name = resolved }) w
        ])
        w

  unfoldable pub from_url : Text → M W File
  unfolding file protocol uri
  from_url url = do ensure (text_eq (protocol url) file_protocol); file (uri url)

  unfoldable pub parent : File → M W File
  unfolding file parent_name
  parent f = file (parent_name f.full_name)

  unfoldable pub child : File → Text → M W File
  unfolding file
  child f name = file (f.full_name ++ (codes "/" ++ name))

  unfoldable pub temporary : File → Text → M W File
  unfolding file
  temporary f prefix = do
    tmp_name ← λ w. checked (files.tempnam f.full_name prefix w) (λ errno.
        oks_system_call_issue errno (codes "tempnam")
          (codes "while creating a valid filename in directory " ++ f.full_name))
    file tmp_name

  unfoldable pub exists : File → W → Bool
  exists f w = answered (files.stat f.full_name w)

  -- The status of the file, with the issue that the methods throw.
  unfoldable pub file_status : File → M W Stat
  file_status f w =
      asked (files.stat f.full_name w)
        (λ errno.
          oks_system_call_issue errno (codes "stat") (codes "on file/directory " ++ f.full_name))
        w

  unfoldable pub get_mode : File → M W ℕ
  unfolding file_status
  get_mode f = do s ← file_status f; pure s.st_mode

  -- `mode & 07777`
  unfoldable pub permissions : File → M W ℕ
  unfolding get_mode
  permissions f = do mode ← get_mode f; pure (mode % 4096)

  unfoldable pub file_pretty_permissions : File → M W Text
  unfolding permissions pretty_permissions
  file_pretty_permissions f = do p ← permissions f; pure (pretty_permissions p)

  unfoldable pub size : File → M W ℕ
  unfolding file_status
  size f = do s ← file_status f; pure s.st_size

  unfoldable pub owner_id : File → M W ℕ
  unfolding file_status
  owner_id f = do s ← file_status f; pure s.st_uid

  unfoldable pub owner : File → M W User
  unfolding owner_id
  owner f = do id ← owner_id f; pure (of_uid id)

  unfoldable pub group : File → M W ℕ
  unfolding file_status
  group f = do s ← file_status f; pure s.st_gid

  unfoldable pub is_regular : File → M W Bool
  unfolding get_mode
  is_regular f = do mode ← get_mode f; pure (mode_is_regular mode)

  unfoldable pub is_directory : File → M W Bool
  unfolding get_mode
  is_directory f = do mode ← get_mode f; pure (mode_is_directory mode)

  unfoldable pub is_fifo : File → M W Bool
  unfolding get_mode
  is_fifo f = do mode ← get_mode f; pure (mode_is_fifo mode)

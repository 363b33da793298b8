-- ===== src/Path.antt =====
-- src/Path.cpp: a list of directories, as in the variable PATH. `semi_colon` is the source's name
-- for the position of a colon.
pub mod Parse
pub mod Which
use okssystem.Prelude.{
  ℕ, zero, suc, ◌+◌, Bool, true, false, Option, none, some, List, [], ◌∷◌, ◌++◌, if◌then◌else◌,
  length, take, drop, Text, is_empty, find, Issue, not_found_issue, stack_overflow, M, Out, ok, err,
  pure, throw, ◌>>=◌, ◌>>◌, write_separated,
}
use okssystem.Calls.{UserCalls, FileCalls}
use okssystem.File.Object.{File, file, child, exists}

abbrev pub path_separator : ℕ
path_separator = b':'

-- The class `Path`, with its `m_directories`.
pub record SearchPath : Type 0 where
  pub m_directories : List File

abbrev pub empty_path : SearchPath
empty_path = record { m_directories = [] }

-- `add`
unfoldable pub add : File → SearchPath → SearchPath
add dir path = record { m_directories = path.m_directories ++ dir ∷ [] }

abbrev pub full_names : List File → List Text
full_names [] = []
full_names (f ∷ fs) = f.full_name ∷ full_names fs

-- `write_to`, onto what the stream has, and `to_string`, also the conversion to `std::string`
unfoldable pub write_to : SearchPath → Text → Text
unfolding write_separated
write_to path stream = write_separated path_separator (full_names path.m_directories) true stream

unfoldable pub to_string : SearchPath → Text
unfolding write_to
to_string path = write_to path []

-- The name before the next separator and what is left behind it.
unfoldable pub split_name : Text → Text × Text
split_name rest = elim (find path_separator rest) [
  | none ↦ (rest, [])
  | some semi_colon ↦ (take semi_colon rest, drop (semi_colon + 1) rest)
]

module _ {W : Type 0} (users : UserCalls W) (files : FileCalls W) where
  unfoldable pub add_name : Text → SearchPath → M W SearchPath
  unfolding file add
  add_name name path =
      if is_empty name
      then pure path
      else (do directory ← file users files name; pure (add directory path))

  -- The loop of `parse_path_list`. The first argument bounds the rounds.
  unfoldable pub parse_rounds : ℕ → Text → SearchPath → M W SearchPath
  unfolding split_name add_name
  parse_rounds rounds [] path = pure path
  parse_rounds zero (c ∷ rest) path = throw stack_overflow
  parse_rounds (suc rounds) (c ∷ rest) path = do
    longer ← add_name (split_name (c ∷ rest)).0 path
    parse_rounds rounds (split_name (c ∷ rest)).1 longer

  -- `parse_path_list`: every round takes something off the text.
  unfoldable pub parse_path_list : Text → SearchPath → M W SearchPath
  unfolding parse_rounds
  parse_path_list path_list path = parse_rounds (length path_list) path_list path

  -- `Path(const std::string &)`
  unfoldable pub path_of : Text → M W SearchPath
  unfolding parse_path_list
  path_of path_list = parse_path_list path_list empty_path

  -- The loop of `which`.
  unfoldable pub which_directory : List File → Text → M W File
  unfolding child exists
  which_directory [] name = throw (not_found_issue name)
  which_directory (dir ∷ dirs) name = do
    f ← child users files dir name
    λ w. if exists users files f w then ok f w else which_directory dirs name w

  unfoldable pub which : SearchPath → Text → M W File
  unfolding which_directory
  which path name = which_directory path.m_directories name

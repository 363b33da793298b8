-- ===== src/Tests/Paths.antt =====
-- The theorems on paths, in the small system.
use okssystem.Prelude.{
  ◌⊎◌, All, not_found_issue, err, ◌≡◌, inr, refl, arith, [], ◌∷◌, Text, codes, tokens, ok,
}
use okssystem.File.Object.{File}
use okssystem.Path.{
  SearchPath, path_separator, empty_path, to_string, parse_path_list, path_of, which,
}
use okssystem.Path.Parse.{add_names, parse_path_list-tokens, path_of-to_string}
use okssystem.Path.Which.{Found, Misses, which_outcome}
use okssystem.Tests.World.{World, users, files}

abbrev dir_file : Text → File
dir_file name = record { full_name = name }

abbrev bin : File
bin = dir_file (codes "/bin")

abbrev usr : File
usr = dir_file (codes "/usr")

abbrev two : SearchPath
two = record { m_directories = bin ∷ usr ∷ [] }

-- Both directories exist, and /usr has the file.
abbrev installed : World
installed = codes "/bin" ∷ codes "/usr" ∷ codes "/usr/ls" ∷ []

parse_path_list-tokens_example :
    parse_path_list users files (codes "/bin::/usr") empty_path installed
    ≡ add_names users files (tokens path_separator (codes "/bin::/usr")) empty_path installed
parse_path_list-tokens_example =
    parse_path_list-tokens users files (codes "/bin::/usr") empty_path installed

path_of-to_string_example : path_of users files (to_string two) installed ≡ ok two installed
path_of-to_string_example =
    path_of-to_string users files two installed
      ((refl, ground arith, inr refl), ((refl, ground arith, inr refl), tt))

which_outcome_example :
    Found users files (bin ∷ usr ∷ []) (codes "ls") installed
    ⊎ (All (Misses users files (codes "ls") installed) (bin ∷ usr ∷ [])
        × (which users files two (codes "ls") installed
            ≡ err (not_found_issue (codes "ls")) installed))
which_outcome_example = which_outcome users files two (codes "ls") installed (refl, (refl, tt))

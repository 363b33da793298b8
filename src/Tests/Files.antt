-- ===== src/Tests/Files.antt =====
-- The theorems on `File` objects, in the small system.
use okssystem.Prelude.{
  inl, ◌≡◌, ◌≢◌, ◌⊎◌, true, refl, arith, some, [], Text, codes, Issue, stack_overflow, ok, err,
}
use okssystem.File.Names.{starts_with_slash}
use okssystem.File.Object.{File, file, exists, working_directory}
use okssystem.File.Object.Absolute.{file_absolute}
use okssystem.File.Directories.{make_path}
use okssystem.File.Directories.MakePath.{make_path_outcome}
use okssystem.File.Directories.MakePath.Success.{IsWritable, make_path_returns}
use okssystem.Tests.World.{World, users, files, files-IsFileSystem, users-GivesAbsolute}

abbrev data_dir : File
data_dir = record { full_name = codes "/data/run" }

file_absolute_example : starts_with_slash (codes "/work/notes") ≡ true
unfolding file working_directory
file_absolute_example =
    file_absolute users files users-GivesAbsolute (codes "notes")
      (record { full_name = codes "/work/notes" }) [] [] refl

real_again : (p q : Text) (w : World) → files.realpath p w ≡ some q → files.realpath q w ≡ some q
real_again p q w h = ground (arith, h)

make_path_outcome_example :
    ((w' : World) × (make_path users files 10 data_dir 0o755 [] ≡ ok tt w')
      × (exists users files data_dir w' ≡ true))
    ⊎ ((e : Issue) × (w' : World) × (make_path users files 10 data_dir 0o755 [] ≡ err e w')
        × (e ≢ stack_overflow))
make_path_outcome_example =
    make_path_outcome users files files-IsFileSystem 10 data_dir 0o755 [] refl (omega arith)

files-IsWritable : IsWritable users files
files-IsWritable = record {
  chmod_works = λ f m w there. refl;
  mkdir_works = λ f father m before w at there. inl refl;
}

make_path_returns_example :
    (w' : World) × (make_path users files 10 data_dir 0o755 [] ≡ ok tt w')
    × (exists users files data_dir w' ≡ true)
make_path_returns_example =
    make_path_returns users files files-IsFileSystem files-IsWritable 10 data_dir 0o755 [] refl
      (omega arith)

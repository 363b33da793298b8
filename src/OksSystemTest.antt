-- ===== src/OksSystemTest.antt =====
-- test/apps/OksSystemTest.cxx: the steps of the test program that start programs, make directories
-- and delete files. Its messages are taken to be off where they are debug messages.
pub mod Status
pub mod Mapping
use okssystem.Prelude.{
  ℕ, suc, Option, List, [], ◌∷◌, ◌++◌, length, Text, codes, print_integer, ℤ, M, Out, ok, err, ◌>>◌,
  true, false,
}
use okssystem.Calls.{SpawnCalls, UserCalls, FileCalls, IoCalls, ProcessCalls}
use okssystem.File.Object.{File}
use okssystem.File.Directories.{make_path, remove, unlink}
use okssystem.MapFile.{Mapped, map_file_of, map, unmap, destroy_map}
use okssystem.Path.{SearchPath, which}
use okssystem.Process.{Process, State, join, lifted}
use okssystem.Executable.{Executable}
use okssystem.Executable.Start.{Run, parent, child, start}
use okssystem.Executable.Pipes.{okssystem_command, file_type, then_run, on_world}

-- What is done with the value of a method that forks; a child does not come back to it.
abbrev pub run_then :
    {W A B : Type 0} → Run W W A → Option Process → (A → M (State W) B) → Run W (State W) B
run_then (parent (ok a w)) s_instance k =
    parent (k a (record { world = w; s_instance = s_instance }))
run_then (parent (err e w)) s_instance k =
    parent (err e (record { world = w; s_instance = s_instance }))
run_then (child c) s_instance k = child c

-- The end of a block with a local `MapFile`: what passes on, or the end of the program if the
-- destructor throws.
pub data Scope (W A : Type 0) : Type 0 where
  passes : Out W A → Scope W A
  terminates : W → Scope W A

abbrev destroyed : {W A : Type 0} → Out (Mapped W) (Unit {0}) → (W → Out W A) → Scope W A
destroyed (ok u s) k = passes (k s.world)
destroyed (err e s) k = terminates s.world

-- The destructor runs behind the body, also while an issue is thrown.
abbrev pub end_scope : {W A : Type 0} → M (Mapped W) (Unit {0}) → Out (Mapped W) A → Scope W A
end_scope destructor (ok a s) = destroyed (destructor s) (ok a)
end_scope destructor (err e s) = destroyed (destructor s) (err e)

-- Between `map` and `unmap` the program copies the mapped memory into a buffer, which is left out.
unfoldable pub test_map_file :
    {W : Type 0} → UserCalls W → FileCalls W → IoCalls W → File → W → Scope W (Unit {0})
unfolding map_file_of map unmap destroy_map
test_map_file users files io f w =
    elim (map_file_of users files io f.full_name 4096 0 true false 0o666 w) [
      | err e w' ↦ passes (err e w')
      | ok map_file w' ↦ end_scope (destroy_map users files io) (
          (map users files io >> unmap users files io) (record { map_file = map_file; world = w' }))
    ]

module _ {W : Type 0} (users : UserCalls W) (files : FileCalls W) where
  -- A name bounds the number of its parents.
  unfoldable pub test_mkdir : File → M W (Unit {0})
  unfolding make_path
  test_mkdir f = make_path users files (suc (length f.full_name)) f 0o700

  -- The first argument bounds the depth of the recursion.
  unfoldable pub test_rmdir : ℕ → File → M W (Unit {0})
  unfolding remove
  test_rmdir levels f = remove users files levels f

  unfoldable pub test_delete_file : File → M W (Unit {0})
  unfolding unlink
  test_delete_file f = unlink users files f

module _ {W : Type 0} (spawn : SpawnCalls W) (io : IoCalls W) (calls : ProcessCalls W) where
  -- The texts are C strings. The first argument bounds the rounds that read the output.
  unfoldable pub test_okssystem :
      UserCalls W → FileCalls W → ℕ → Text → Text → State W → Run W (State W) Text
  unfolding okssystem_command
  test_okssystem users files rounds path text =
      okssystem_command spawn io calls users files rounds
        (codes "echo " ++ (b'"' ∷ (text ++ (b'"' ∷ (codes " > " ++ path)))))

  unfoldable pub test_exec : Executable → ℤ → State W → Run W (State W) ℤ
  unfolding start join print_integer
  test_exec executable status s =
      run_then (start spawn io executable (print_integer status ∷ []) s.world) s.s_instance
        (λ p. join calls p true)

  -- The message asks for the type of the file, and is not a debug message.
  unfoldable pub test_path :
      UserCalls W → FileCalls W → ℕ → SearchPath → Text → State W → Run W (State W) Text
  unfolding which file_type
  test_path users files rounds path name =
      then_run spawn io calls (on_world (which users files path name))
        (file_type spawn io calls users files rounds)

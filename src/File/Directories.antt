-- ===== src/File/Directories.antt =====
-- src/File.cpp: the methods of `File` that change the file system.
pub mod MakePath
pub mod Links
pub mod Trees
pub mod Modes
pub mod Fifos
use okssystem.Prelude.{
  ℕ, zero, suc, ◌+◌, Bool, true, false, Option, none, some, List, [], ◌∷◌, ◌++◌, ◌==◌, ◌||◌,
  if◌then◌else◌, Text, codes, text_eq, Issue, oks_system_call_issue, remove_file_issue,
  rename_file_issue, stack_overflow, M, Out, ok, err, pure, throw, catch_call, ◌>>=◌, ◌>>◌, length,
}
use Prim.Native.Nat.{bit_or}
use okssystem.Calls.{Answer, done, failed, UserCalls, FileCalls, asked, checked}
use okssystem.File.Copies.{copy_file}
use okssystem.File.Object.{File, file, parent, exists, permissions, is_directory, is_fifo}

module _ {W : Type 0} (users : UserCalls W) (files : FileCalls W) where
  unfoldable pub unlink : File → M W (Unit {0})
  unlink f w = checked (files.unlink f.full_name w) (λ errno. remove_file_issue errno f.full_name)

  unfoldable pub rmdir : File → M W (Unit {0})
  rmdir f w =
      checked (files.rmdir f.full_name w) (λ errno.
        oks_system_call_issue errno (codes "rmdir") (codes "on directory " ++ f.full_name))

  unfoldable pub rename : File → File → M W (Unit {0})
  rename f other w =
      checked (files.rename f.full_name other.full_name w)
        (λ errno. rename_file_issue errno f.full_name other.full_name)

  -- The loop of `directory` over the names that `readdir` gives; `push_back` copies the file.
  unfoldable pub collect_files : Text → List Text → List File → M W (List File)
  unfolding file copy_file
  collect_files dir [] file_vector = pure file_vector
  collect_files dir (name ∷ names) file_vector =
      if text_eq name (codes ".") || text_eq name (codes "..")
      then collect_files dir names file_vector
      else (do
        f ← file users files (dir ++ (codes "/" ++ name))
        copy ← copy_file users files f
        collect_files dir names (file_vector ++ copy ∷ []))

  unfoldable pub directory : File → M W (List File)
  unfolding collect_files
  directory f = do
    names ← λ w.
        asked (files.opendir f.full_name w)
          (λ errno.
            oks_system_call_issue errno (codes "opendir") (codes "on directory " ++ f.full_name))
          w
    file_vector ← collect_files f.full_name names []
    λ w.
        asked (files.closedir f.full_name w)
          (λ errno.
            oks_system_call_issue errno (codes "closedir") (codes "on directory " ++ f.full_name))
          w
    pure file_vector

  -- `const File f = *p` copies the file.
  unfoldable pub remove_child : (File → M W (Unit {0})) → File → M W (Unit {0})
  unfolding copy_file exists
  remove_child recur p = do
    f ← copy_file users files p
    λ w. if exists users files f w then recur f w else ok tt w

  -- The loop of `remove` over the children, with the call of `remove` itself.
  unfoldable pub remove_children : (File → M W (Unit {0})) → List File → M W (Unit {0})
  remove_children recur [] = pure tt
  remove_children recur (f ∷ childs) = do remove_child recur f; remove_children recur childs

  -- The first argument bounds the depth of the recursion.
  unfoldable pub remove : ℕ → File → M W (Unit {0})
  unfolding is_directory directory rmdir unlink remove_children
  remove zero f = throw stack_overflow
  remove (suc levels) f = do
    d ← is_directory users files f
    (if d
        then (do childs ← directory f; remove_children (remove levels) childs; rmdir f)
        else unlink f)

  -- `permissions(mode_t)`
  unfoldable pub set_permissions : File → ℕ → M W (Unit {0})
  unfolding permissions
  set_permissions f perm = do
    old ← permissions users files f
    (if perm == old then pure tt else λ w. checked (files.chmod f.full_name perm w) (λ errno.
        oks_system_call_issue errno (codes "chmod") (codes "on file/directory " ++ f.full_name)))

  -- `make_dir` behind a `mkdir` that failed.
  unfoldable pub make_dir_failed : File → ℕ → ℕ → M W (Unit {0})
  unfolding set_permissions exists is_directory
  make_dir_failed f perm mkdir_error w =
      if exists users files f w
      then (do
        d ← is_directory users files f
        (if d then catch_call (set_permissions f perm) (λ errno. pure tt) else pure tt))
          w
      else err
          (oks_system_call_issue mkdir_error (codes "mkdir") (codes "on directory " ++ f.full_name))
          w

  unfoldable pub make_dir : File → ℕ → M W (Unit {0})
  unfolding make_dir_failed set_permissions
  make_dir f perm w =
      let (result, w') = files.mkdir f.full_name perm w in
      elim result [
        | done a ↦
            catch_call (set_permissions f perm)
              (λ errno. throw (
                oks_system_call_issue errno (codes "mkdir -> chmod")
                  (codes "on directory " ++ f.full_name)))
              w'
        | failed mkdir_error ↦ make_dir_failed f perm mkdir_error w'
      ]

  -- `if (! father.exists()) father.make_path(perm | S_IRWXU)`, with the call of `make_path` itself.
  abbrev make_father : (File → ℕ → M W (Unit {0})) → File → ℕ → M W (Unit {0})
  make_father recur father perm w =
      if exists users files father w then ok tt w else recur father (bit_or perm 0o700) w

  -- The first argument bounds the depth of the recursion.
  unfoldable pub make_path : ℕ → File → ℕ → M W (Unit {0})
  unfolding make_dir parent exists
  make_path zero f perm = throw stack_overflow
  make_path (suc levels) f perm = do
    father ← parent users files f
    make_father (make_path levels) father perm
    make_dir f perm

  -- A name bounds the number of its parents.
  unfoldable pub ensure_path : File → ℕ → M W (Unit {0})
  unfolding make_path
  ensure_path f perm = do
    father ← parent users files f
    make_path (suc (length father.full_name)) father perm

  -- `make_fifo` where the name is free, or taken by something else.
  unfoldable pub make_new_fifo : File → ℕ → M W (Unit {0})
  unfolding set_permissions
  make_new_fifo f perm = do
    λ w. checked (files.mkfifo f.full_name perm w) (λ errno.
        oks_system_call_issue errno (codes "mkfifo") (codes "while creating FIFO " ++ f.full_name))
    set_permissions f perm

  unfoldable pub make_fifo : File → ℕ → M W (Unit {0})
  unfolding make_new_fifo permissions exists is_fifo
  make_fifo f perm w =
      if exists users files f w
      then (do
        fifo ← is_fifo users files f
        (if fifo
            then (do
              old ← permissions users files f
              (if perm == old then pure tt else set_permissions f perm))
            else make_new_fifo f perm))
          w
      else make_new_fifo f perm w

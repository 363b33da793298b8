-- ===== src/File/Directories/Links.antt =====
-- Links in a directory: what `directory` makes of them, and what `remove` then deletes.
use okssystem.Prelude.{
  ℕ, zero, suc, ◌≡◌, refl, ◌∙◌, Bool, Bool-cases, true, false, ◌||◌, Option, none, some,
  Option-cases, inl, inr, List, [], ◌∷◌, ◌++◌, append_assoc, append-nil, arith, All, ◌>>◌, Text,
  codes, text_eq, stack_overflow, ok, err, M,
}
use okssystem.Calls.{done, failed, Stat, UserCalls, FileCalls}
use okssystem.File.Names.{starts_with_slash}
use okssystem.File.Object.{
  File, file, exists, is_directory, file_status, get_mode, mode_is_directory,
}
use okssystem.File.Object.Absolute.{starts-append}
use okssystem.File.Copies.{file_of_real, file_of_none, copy_file}
use okssystem.File.Directories.{
  collect_files, directory, remove, remove_child, remove_children, rmdir, unlink,
}

-- The two entries that `directory` leaves out.
abbrev pub is_dots : Text → Bool
is_dots name = text_eq name (codes ".") || text_eq name (codes "..")

module _ {W : Type 0} (users : UserCalls W) (files : FileCalls W) where
  abbrev resolved_or : Option Text → Text → Text
  resolved_or none path = path
  resolved_or (some real) path = real

  abbrev resolved : Text → W → Text
  resolved path w = resolved_or (files.realpath path w) path

  -- The file that an entry stands for: `realpath` follows a link. The copy resolves the name again.
  abbrev pub entry_file : Text → Text → W → File
  entry_file dir name w = record {
    full_name = resolved (resolved (dir ++ (codes "/" ++ name)) w) w;
  }

  abbrev with_entry : Bool → File → List File → List File
  with_entry true f fs = fs
  with_entry false f fs = f ∷ fs

  -- The files of all entries but `.` and `..`.
  abbrev pub entry_files : Text → List Text → W → List File
  entry_files dir [] w = []
  entry_files dir (name ∷ names) w =
      with_entry (is_dots name) (entry_file dir name w) (entry_files dir names w)

  file-resolved :
      (path : Text) (w : W)
      → starts_with_slash path ≡ true
      → file users files path w ≡ ok (record { full_name = resolved path w }) w
  file-resolved path w long = elim (Option-cases (files.realpath path w)) [
    | inl e ↦ rw e (file_of_none users files path w long e)
    | inr (q, e) ↦ rw e (file_of_real users files path q w long e)
  ]

  resolved_absolute :
      (path : Text) (w : W)
      → ((p q : Text) → files.realpath p w ≡ some q → starts_with_slash q ≡ true)
      → starts_with_slash path ≡ true
      → starts_with_slash (resolved path w) ≡ true
  resolved_absolute path w real long = elim (Option-cases (files.realpath path w)) [
    | inl e ↦ rw e long
    | inr (q, e) ↦ rw e (real path q e)
  ]

  collect_files_lem :
      (dir : Text) (names : List Text) (file_vector : List File) (w : W)
      → starts_with_slash dir ≡ true
      → ((p q : Text) → files.realpath p w ≡ some q → starts_with_slash q ≡ true)
      → collect_files users files dir names file_vector w
        ≡ ok (file_vector ++ entry_files dir names w) w
  unfolding collect_files copy_file
  collect_files_lem dir [] file_vector w h real = rw (append-nil file_vector) refl
  collect_files_lem dir (name ∷ names) file_vector w h real = elim (Bool-cases (is_dots name)) [
    | inl e ↦ rw e (collect_files_lem dir names file_vector w h real)
    | inr e ↦
        let f = entry_file dir name w in
        let path = dir ++ (codes "/" ++ name) in
        let long = starts-append dir (codes "/" ++ name) h in
        rw
          (
            e,
            file-resolved path w long,
            file-resolved (resolved path w) w (resolved_absolute path w real long),
          )
          (collect_files_lem dir names (file_vector ++ f ∷ []) w h real
            ∙ rw (append_assoc file_vector (f ∷ []) (entry_files dir names w)) refl)
  ]

  directory_lem :
      (f : File) (names : List Text) (w : W)
      → starts_with_slash f.full_name ≡ true
      → ((p q : Text) → files.realpath p w ≡ some q → starts_with_slash q ≡ true)
      → files.opendir f.full_name w ≡ done names
      → files.closedir f.full_name w ≡ done tt
      → directory users files f w ≡ ok (entry_files f.full_name names w) w
  unfolding directory
  directory_lem f names w h real opened closed =
      let e = collect_files_lem f.full_name names [] w h real in ground (arith, e, opened, closed)

  -- A directory with an absolute name and these entries, which can be listed; `realpath` gives
  -- absolute names.
  pub record IsDirectory (f : File) (names : List Text) (w : W) : Type 0 where
    pub absolute : starts_with_slash f.full_name ≡ true
    pub real_absolute : (p q : Text) → files.realpath p w ≡ some q → starts_with_slash q ≡ true
    pub st : Stat
    pub has_status : files.stat f.full_name w ≡ done st
    pub has_mode : mode_is_directory st.st_mode ≡ true
    pub opens : files.opendir f.full_name w ≡ done names
    pub closes : files.closedir f.full_name w ≡ done tt

  is_directory_lem :
      (f : File) (st : Stat) (w : W)
      → files.stat f.full_name w ≡ done st
      → is_directory users files f w ≡ ok (mode_is_directory st.st_mode) w
  unfolding is_directory get_mode file_status
  is_directory_lem f st w h = ground (arith, h)

  pub exists_lem :
      (f : File) (st : Stat) (w : W)
      → files.stat f.full_name w ≡ done st
      → exists users files f w ≡ true
  unfolding exists
  exists_lem f st w h = ground (arith, h)

  -- A child that is its own `realpath`, and one that is gone.
  pub remove_child_there :
      (recur : File → M W (Unit {0})) (f : File) (st : Stat) (w : W)
      → starts_with_slash f.full_name ≡ true
      → files.realpath f.full_name w ≡ some f.full_name
      → files.stat f.full_name w ≡ done st
      → remove_child users files recur f w ≡ recur f w
  unfolding remove_child copy_file
  remove_child_there recur f st w long real has =
      rw (file_of_real users files f.full_name f.full_name w long real)
        (rw (exists_lem f st w has) refl)

  pub remove_child_missing :
      (recur : File → M W (Unit {0})) (f : File) (errno : ℕ) (w : W)
      → starts_with_slash f.full_name ≡ true
      → files.realpath f.full_name w ≡ none
      → files.stat f.full_name w ≡ failed errno
      → remove_child users files recur f w ≡ ok tt w
  unfolding remove_child copy_file exists
  remove_child_missing recur f errno w long real gone =
      rw (file_of_none users files f.full_name w long real) (rw gone refl)

  pub remove_enters :
      (levels : ℕ) (f : File) (names : List Text) (w : W)
      → IsDirectory f names w
      → remove users files (suc levels) f w
        ≡ (do
          remove_children users files (remove users files levels) (entry_files f.full_name names w)
          rmdir users files f)
            w
  unfolding remove
  remove_enters levels f names w here =
      rw (is_directory_lem f here.st w here.has_status, here.has_mode)
        (rw (directory_lem f names w here.absolute here.real_absolute here.opens here.closes) refl)

  pub remove_plain :
      (levels : ℕ) (f : File) (st : Stat) (w w' : W)
      → files.stat f.full_name w ≡ done st
      → mode_is_directory st.st_mode ≡ false
      → files.unlink f.full_name w ≡ (done tt, w')
      → remove users files (suc levels) f w ≡ ok tt w'
  unfolding remove unlink
  remove_plain levels f st w w' there plain gone =
      rw (is_directory_lem f st w there, plain) (rw gone refl)

  -- The first entry that is not `.` or `..`.
  entry_files-dots :
      (dir : Text) (dots : List Text) (name : Text) (names : List Text) (w : W)
      → All (λ d. is_dots d ≡ true) dots
      → is_dots name ≡ false
      → entry_files dir (dots ++ name ∷ names) w ≡ entry_file dir name w ∷ entry_files dir names w
  entry_files-dots dir [] name names w h e = rw e refl
  entry_files-dots dir (d ∷ dots) name names w (hd, h) e =
      rw hd (entry_files-dots dir dots name names w h e)

  module _ (f : File) (dots : List Text) (name : Text) (names : List Text) (w : W)
      (here : IsDirectory f (dots ++ name ∷ names) w) (dotted : All (λ d. is_dots d ≡ true) dots)
      (named : is_dots name ≡ false) where
    first_child :
        (levels : ℕ) (q : Text) (st : Stat)
        → files.realpath (f.full_name ++ (codes "/" ++ name)) w ≡ some q
        → starts_with_slash q ≡ true
        → files.realpath q w ≡ some q
        → files.stat q w ≡ done st
        → remove users files (suc levels) f w
          ≡ ((remove users files levels (record { full_name = q })
                  >> remove_children users files
                      (remove users files levels)
                      (entry_files f.full_name names w))
                >> rmdir users files f)
              w
    unfolding remove_children
    first_child levels q st link long real there =
        let child =
          remove_child_there (remove users files levels) (record { full_name = q }) st w long real
            there in
        remove_enters levels f (dots ++ name ∷ names) w here
        ∙ rw (entry_files-dots f.full_name dots name names w dotted named, link, real)
            (rw child refl)

    -- `remove` of a directory that can be listed (`IsDirectory`), whose first entry besides `.` and
    -- `..` is a link to a file that is its own `realpath`, no directory, and can be unlinked: the
    -- file that the link points to is deleted first, wherever it stands; then follow the other
    -- entries and the directory.
    pub remove_follows :
        (levels : ℕ) (q : Text) (st : Stat) (w' : W)
        → files.realpath (f.full_name ++ (codes "/" ++ name)) w ≡ some q
        → starts_with_slash q ≡ true
        → files.realpath q w ≡ some q
        → files.stat q w ≡ done st
        → mode_is_directory st.st_mode ≡ false
        → files.unlink q w ≡ (done tt, w')
        → remove users files (suc (suc levels)) f w
          ≡ (do
            remove_children users files
                (remove users files (suc levels))
                (entry_files f.full_name names w)
            rmdir users files f)
              w'
    remove_follows levels q st w' link long real there plain gone =
        first_child (suc levels) q st link long real there
        ∙ rw (remove_plain levels (record { full_name = q }) st w w' there plain gone) refl

    -- `remove` of a directory that can be listed (`IsDirectory`), whose first entry besides `.` and
    -- `..` is a link to the directory itself, which is its own `realpath`, does not come to an end:
    -- whatever the bound on the depth of its recursion, it is reached, and nothing is deleted
    -- before.
    pub remove_loops :
        (levels : ℕ)
        → files.realpath (f.full_name ++ (codes "/" ++ name)) w ≡ some f.full_name
        → files.realpath f.full_name w ≡ some f.full_name
        → remove users files levels f w ≡ err stack_overflow w
    unfolding remove
    remove_loops zero link real = refl
    remove_loops (suc levels) link real =
        first_child levels f.full_name here.st link here.absolute real here.has_status
        ∙ rw (remove_loops levels link real) refl

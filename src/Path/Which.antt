-- ===== src/Path/Which.antt =====
-- What `which` finds: the first directory that has the file.
use okssystem.Prelude.{
  ◌≡◌, ◌⊎◌, inl, inr, refl, true, false, Bool-cases, List, [], ◌∷◌, ◌++◌, append-nil, append_assoc,
  All, All-append, Text, codes, not_found_issue, ok, err,
}
use okssystem.File.Names.{starts_with_slash}
use okssystem.File.Object.Absolute.{starts-append}
use okssystem.File.Copies.{file_of_absolute}
use okssystem.Calls.{UserCalls, FileCalls}
use okssystem.File.Object.{File, child, exists}
use okssystem.Path.{SearchPath, which, which_directory}

module _ {W : Type 0} (users : UserCalls W) (files : FileCalls W) where
  -- The directory has no file of the name.
  abbrev pub Misses : Text → W → File → Type 0
  Misses name w dir =
      (f : File) × (child users files dir name w ≡ ok f w) × (exists users files f w ≡ false)

  -- The directory has one.
  abbrev pub Has : Text → W → File → File → Type 0
  Has name w dir f = (child users files dir name w ≡ ok f w) × (exists users files f w ≡ true)

  which_directory_skips :
      (before dirs : List File) (name : Text) (w : W)
      → All (Misses name w) before
      → which_directory users files (before ++ dirs) name w
        ≡ which_directory users files dirs name w
  unfolding which_directory
  which_directory_skips [] dirs name w h = refl
  which_directory_skips (dir ∷ before) dirs name w ((f, e, gone), h) =
      rw e (rw gone (which_directory_skips before dirs name w h))

  which_first :
      (before after : List File) (dir f : File) (name : Text) (w : W)
      → All (Misses name w) before
      → Has name w dir f
      → which users files (record { m_directories = before ++ dir ∷ after }) name w ≡ ok f w
  unfolding which which_directory
  which_first before after dir f name w h (e, there) =
      rw (which_directory_skips before (dir ∷ after) name w h) (rw e (rw there refl))

  which_directory_none :
      (dirs : List File) (name : Text) (w : W)
      → All (Misses name w) dirs
      → which_directory users files dirs name w ≡ err (not_found_issue name) w
  unfolding which_directory
  which_directory_none [] name w h = refl
  which_directory_none (dir ∷ dirs) name w ((f, e, gone), h) =
      rw e (rw gone (which_directory_none dirs name w h))

  which_none :
      (path : SearchPath) (name : Text) (w : W)
      → All (Misses name w) path.m_directories
      → which users files path name w ≡ err (not_found_issue name) w
  unfolding which
  which_none path name w h = which_directory_none path.m_directories name w h

  -- In an absolute directory the file can always be looked for.
  Misses-or-Has :
      (dir : File) (name : Text) (w : W)
      → starts_with_slash dir.full_name ≡ true
      → Misses name w dir ⊎ ((f : File) × Has name w dir f)
  unfolding child
  Misses-or-Has dir name w h =
      let (f, made) =
        file_of_absolute users files (dir.full_name ++ (codes "/" ++ name)) w
          (starts-append dir.full_name (codes "/" ++ name) h) in
      elim (Bool-cases (exists users files f w)) [
        | inl there ↦ inr (f, (made, there))
        | inr gone ↦ inl (f, made, gone)
      ]

  -- Where the search ends: at the first directory that has the file, or nowhere.
  abbrev pub Found : List File → Text → W → Type 0
  Found dirs name w =
      (before after : List File) × (dir f : File) × (dirs ≡ before ++ dir ∷ after)
      × All (Misses name w) before
      × Has name w dir f
      × (which users files (record { m_directories = dirs }) name w ≡ ok f w)

  search :
      (before dirs : List File) (name : Text) (w : W)
      → All (Misses name w) before
      → All (λ d. starts_with_slash d.full_name ≡ true) dirs
      → Found (before ++ dirs) name w ⊎ All (Misses name w) (before ++ dirs)
  search before [] name w gone long = inr (rw (append-nil before) gone)
  search before (dir ∷ dirs) name w gone (h, long) = elim (Misses-or-Has dir name w h) [
    | inl misses ↦ rw (← append_assoc before (dir ∷ []) dirs) (
        search (before ++ dir ∷ []) dirs name w
          (All-append (Misses name w) before (dir ∷ []) gone (misses, tt)) long)
    | inr (f, has) ↦
        inl (before, dirs, dir, f, refl, gone, has, which_first before dirs dir f name w gone has)
  ]

  -- On a path of directories with absolute names, `which` gives the file in the first directory that
  -- has it; if none has it, it throws a `NotFoundIssue` with the name. It leaves the system as it is.
  pub which_outcome :
      (path : SearchPath) (name : Text) (w : W)
      → All (λ d. starts_with_slash d.full_name ≡ true) path.m_directories
      → Found path.m_directories name w
        ⊎ (All (Misses name w) path.m_directories
            × (which users files path name w ≡ err (not_found_issue name) w))
  which_outcome path name w long = elim (search [] path.m_directories name w tt long) [
    | inl found ↦ inl found
    | inr misses ↦ inr (misses, which_none path name w misses)
  ]

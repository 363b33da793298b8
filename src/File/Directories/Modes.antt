-- ===== src/File/Directories/Modes.antt =====
-- The permissions that `permissions(mode_t)` and `make_dir` leave behind.
use okssystem.Prelude.{
  ℕ, ◌%◌, ◌<◌, ◌≡◌, ◌⊎◌, inl, inr, refl, Bool-cases, true, false, ◌==◌, arith, ◌++◌, Text, codes,
  oks_system_call_issue, Out, ok, err, catch_call, throw, ◌∙◌,
}
use okssystem.Calls.{Answer, Answer-cases, done, failed, Stat, UserCalls, FileCalls}
use okssystem.File.Object.{
  File, exists, permissions, is_directory, get_mode, file_status, mode_is_directory,
}
use okssystem.File.Directories.{set_permissions, make_dir, make_dir_failed}

-- A `chmod` that succeeds sets the twelve permission bits of an existing file.
pub record IsModes {W : Type 0} (files : FileCalls W) : Type 0 where
  pub chmod_sets :
      (p : Text) (m : ℕ) (w : W)
      → m < 4096
      → (files.chmod p m w).0 ≡ done tt
      → (st : Stat) × (files.stat p (files.chmod p m w).1 ≡ done st) × (st.st_mode % 4096 ≡ m)

module _ {W : Type 0} (users : UserCalls W) (files : FileCalls W) (laws : IsModes files) where
  permissions_at :
      (f : File) (st : Stat) (w : W)
      → files.stat f.full_name w ≡ done st
      → permissions users files f w ≡ ok (st.st_mode % 4096) w
  unfolding permissions get_mode file_status
  permissions_at f st w e = ground (arith, e)

  -- What `permissions(mode_t)` comes to on a file that is there.
  set_permissions_cases :
      (f : File) (perm : ℕ) (st : Stat) (w : W)
      → perm < 4096
      → files.stat f.full_name w ≡ done st
      → ((w' : W) × (set_permissions users files f perm w ≡ ok tt w')
          × (permissions users files f w' ≡ ok perm w'))
        ⊎ ((errno : ℕ) × (w' : W) × (files.chmod f.full_name perm w ≡ (failed errno, w'))
            × (set_permissions users files f perm w
                ≡ err
                    (oks_system_call_issue errno
                      (codes "chmod")
                      (codes "on file/directory " ++ f.full_name))
                    w'))
  unfolding set_permissions
  set_permissions_cases f perm st w small there =
      let old = permissions_at f st w there in
      elim (Bool-cases (perm == st.st_mode % 4096)) [
        | inl e ↦
            let same : st.st_mode % 4096 ≡ perm = ground (arith, e) in
            inl (w, rw (old, e) refl, rw (old, same) refl)
        | inr e ↦
            let w' = (files.chmod f.full_name perm w).1 in
            elim (Answer-cases (files.chmod f.full_name perm w).0) [
              | inl (u, c) ↦
                  let (st', there', set) = laws.chmod_sets f.full_name perm w small c in
                  inl (w', rw (old, e) (rw c refl), rw (permissions_at f st' w' there', set) refl)
              | inr (errno, c) ↦ inr (errno, w', ground (arith, c), rw (old, e) (rw c refl))
            ]
      ]

  is_directory_at :
      (f : File) (st : Stat) (w : W)
      → files.stat f.full_name w ≡ done st
      → is_directory users files f w ≡ ok (mode_is_directory st.st_mode) w
  unfolding is_directory get_mode file_status
  is_directory_at f st w e = ground (arith, e)

  -- The issue that `make_dir` throws.
  abbrev pub MakeDirThrows : File → ℕ → W → Type 0
  MakeDirThrows f perm w =
      (errno : ℕ) × (call : Text) × (w' : W) × (make_dir users files f perm w
        ≡ err (oks_system_call_issue errno call (codes "on directory " ++ f.full_name)) w')

  -- The file has the permissions that are asked for.
  abbrev pub MakeDirSets : File → ℕ → W → Type 0
  MakeDirSets f perm w =
      (w' : W) × (make_dir users files f perm w ≡ ok tt w')
      × (permissions users files f w' ≡ ok perm w')

  -- `mkdir` has failed: something else has the name, or its permissions cannot be changed.
  abbrev pub MakeDirPasses : File → ℕ → W → Type 0
  MakeDirPasses f perm w =
      (errno : ℕ) × (w1 : W) × (w' : W) × (files.mkdir f.full_name perm w ≡ (failed errno, w1))
      × (make_dir users files f perm w ≡ ok tt w')
      × (((is_directory users files f w1 ≡ ok false w1) × (w' ≡ w1))
          ⊎ ((is_directory users files f w1 ≡ ok true w1)
              × ((e : ℕ) × (files.chmod f.full_name perm w1 ≡ (failed e, w')))))

  -- `make_dir` behind the answer of `mkdir`.
  abbrev after_mkdir : File → ℕ → Answer (Unit {0}) × W → Out W (Unit {0})
  after_mkdir f perm (done a, w) =
      catch_call (set_permissions users files f perm)
        (λ errno. throw (
          oks_system_call_issue errno (codes "mkdir -> chmod")
            (codes "on directory " ++ f.full_name)))
        w
  after_mkdir f perm (failed errno, w) = make_dir_failed users files f perm errno w

  make_dir-after_mkdir :
      (f : File) (perm : ℕ) (w : W) (r : Answer (Unit {0}) × W)
      → files.mkdir f.full_name perm w ≡ r
      → make_dir users files f perm w ≡ after_mkdir f perm r
  unfolding make_dir
  make_dir-after_mkdir f perm w (done a, w1) e = ground (arith, e)
  make_dir-after_mkdir f perm w (failed errno, w1) e = ground (arith, e)

  made_missing :
      (f : File) (perm errno : ℕ) (w w1 : W)
      → files.mkdir f.full_name perm w ≡ (done tt, w1)
      → files.stat f.full_name w1 ≡ failed errno
      → MakeDirThrows f perm w
  unfolding set_permissions permissions get_mode file_status
  made_missing f perm errno w w1 made e =
      (errno, codes "mkdir -> chmod", w1, make_dir-after_mkdir f perm w _ made ∙ rw e refl)

  made_there :
      (f : File) (perm : ℕ) (st : Stat) (w w1 : W)
      → perm < 4096
      → files.mkdir f.full_name perm w ≡ (done tt, w1)
      → files.stat f.full_name w1 ≡ done st
      → MakeDirSets f perm w ⊎ MakeDirThrows f perm w
  made_there f perm st w w1 small made there =
      elim (set_permissions_cases f perm st w1 small there) [
        | inl (w', set, has) ↦ inl (w', make_dir-after_mkdir f perm w _ made ∙ rw set refl, has)
        | inr (errno, w', refused, threw) ↦ inr (
          errno,
          codes "mkdir -> chmod",
          w',
          make_dir-after_mkdir f perm w _ made ∙ rw threw refl,
        )
      ]

  unmade_missing :
      (f : File) (perm mkdir_error errno : ℕ) (w w1 : W)
      → files.mkdir f.full_name perm w ≡ (failed mkdir_error, w1)
      → files.stat f.full_name w1 ≡ failed errno
      → MakeDirThrows f perm w
  unfolding make_dir_failed exists
  unmade_missing f perm mkdir_error errno w w1 unmade e =
      (mkdir_error, codes "mkdir", w1, make_dir-after_mkdir f perm w _ unmade ∙ rw e refl)

  unmade_there :
      (f : File) (perm mkdir_error : ℕ) (st : Stat) (w w1 : W)
      → perm < 4096
      → files.mkdir f.full_name perm w ≡ (failed mkdir_error, w1)
      → files.stat f.full_name w1 ≡ done st
      → MakeDirSets f perm w ⊎ MakeDirPasses f perm w
  unfolding make_dir_failed exists
  unmade_there f perm mkdir_error st w w1 small unmade there =
      let is_there = is_directory_at f st w1 there in
      elim (Bool-cases (mode_is_directory st.st_mode)) [
        | inl d ↦ elim (set_permissions_cases f perm st w1 small there) [
          | inl (w', set, has) ↦
              inl (w', make_dir-after_mkdir f perm w _ unmade ∙ rw there (rw d (rw set refl)), has)
          | inr (errno, w', refused, threw) ↦ inr (
            mkdir_error,
            w1,
            w',
            unmade,
            make_dir-after_mkdir f perm w _ unmade ∙ rw there (rw d (rw threw refl)),
            inr (rw (is_there, d) refl, (errno, refused)),
          )
        ]
        | inr d ↦ inr (
          mkdir_error,
          w1,
          w1,
          unmade,
          make_dir-after_mkdir f perm w _ unmade ∙ rw there (rw d refl),
          inl (rw (is_there, d) refl, refl),
        )
      ]

  -- If `chmod` sets the permissions where it succeeds (`IsModes`), `make_dir` has three outcomes. It
  -- returns, and the permissions of the file are those asked for, also if the directory was there
  -- before or `mkdir` left bits out. Or it returns although `mkdir` has failed, since something that
  -- is no directory has the name, or `chmod` fails on the directory that was there. Or it throws the
  -- issue of a system call on the directory.
  pub make_dir_outcome :
      (f : File) (perm : ℕ) (w : W)
      → perm < 4096
      → MakeDirSets f perm w ⊎ MakeDirPasses f perm w ⊎ MakeDirThrows f perm w
  make_dir_outcome f perm w small =
      let w1 = (files.mkdir f.full_name perm w).1 in
      elim (Answer-cases (files.mkdir f.full_name perm w).0) [
        | inl (u, made) ↦ elim (Answer-cases (files.stat f.full_name w1)) [
          | inl (st, there) ↦ elim (made_there f perm st w w1 small (ground (arith, made)) there) [
            | inl sets ↦ inl sets
            | inr throws ↦ inr (inr throws)
          ]
          | inr (errno, gone) ↦
              inr (inr (made_missing f perm errno w w1 (ground (arith, made)) gone))
        ]
        | inr (mkdir_error, unmade) ↦ elim (Answer-cases (files.stat f.full_name w1)) [
          | inl (st, there) ↦
              elim (unmade_there f perm mkdir_error st w w1 small (ground (arith, unmade)) there) [
                | inl sets ↦ inl sets
                | inr passes ↦ inr (inl passes)
              ]
          | inr (errno, gone) ↦
              inr (inr (unmade_missing f perm mkdir_error errno w w1 (ground (arith, unmade)) gone))
        ]
      ]

-- ===== src/File/Directories/MakePath/Success.antt =====
-- Where the calls of `make_path` succeed, it makes the whole path.
use Prim.Native.Nat.{bit_or}
use okssystem.Prelude.{
  ℕ, zero, suc, ◌<◌, ◌≡◌, ◌⊎◌, inl, inr, refl, ◌∙◌, Bool-cases, true, arith, length, ok, ◌==◌, ◌%◌,
}
use okssystem.Calls.{Answer-cases, done, UserCalls, FileCalls}
use okssystem.File.Names.{starts_with_slash}
use okssystem.File.Object.{
  File, parent, exists, is_directory, permissions, get_mode, file_status, mode_is_directory,
}
use okssystem.File.Directories.{set_permissions, make_dir, make_dir_failed, make_path}
use okssystem.File.Directories.MakePath.{
  IsFileSystem, parent_cases, make_path_step, make_path-exists,
}

-- `chmod` works on every file that exists, and `mkdir` in every directory that exists, where the name
-- is free; the directory is the one that `parent` gives at the time of the call or before.
pub record IsWritable {W : Type 0} (users : UserCalls W) (files : FileCalls W) : Type 0 where
  pub chmod_works :
      (f : File) (m : ℕ) (w : W)
      → exists users files f w ≡ true
      → (files.chmod f.full_name m w).0 ≡ done tt
  pub mkdir_works :
      (f father : File) (m : ℕ) (before w : W)
      → parent users files f before ≡ ok father before
      → exists users files father w ≡ true
      → ((files.mkdir f.full_name m w).0 ≡ done tt)
        ⊎ (exists users files f (files.mkdir f.full_name m w).1 ≡ true)

module _ {W : Type 0} (users : UserCalls W) (files : FileCalls W) (laws : IsFileSystem files)
    (writable : IsWritable users files) where
  set_permissions_returns :
      (f : File) (perm : ℕ) (w : W)
      → exists users files f w ≡ true
      → (w' : W) × (set_permissions users files f perm w ≡ ok tt w')
  unfolding set_permissions permissions get_mode file_status exists
  set_permissions_returns f perm w there = elim (Answer-cases (files.stat f.full_name w)) [
    | inr (errno, e) ↦ absurd (ground (arith, e, there))
    | inl (st, e) ↦ elim (Bool-cases (perm == st.st_mode % 4096)) [
      | inl same ↦ (w, rw e (rw same refl))
      | inr other ↦ (
        (files.chmod f.full_name perm w).1,
        rw e (rw other (rw (writable.chmod_works f perm w there) refl)),
      )
    ]
  ]

  make_dir_failed_returns :
      (f : File) (perm errno : ℕ) (w : W)
      → exists users files f w ≡ true
      → (w' : W) × (make_dir_failed users files f perm errno w ≡ ok tt w')
  unfolding make_dir_failed is_directory get_mode file_status exists
  make_dir_failed_returns f perm errno w there =
      let (v, set) = set_permissions_returns f perm w there in
      elim (Answer-cases (files.stat f.full_name w)) [
        | inr (missing, e) ↦ absurd (ground (arith, e, there))
        | inl (st, e) ↦ elim (Bool-cases (mode_is_directory st.st_mode)) [
          | inl d ↦ (v, rw e (rw d (rw set refl)))
          | inr d ↦ (w, rw e (rw d refl))
        ]
      ]

  make_dir_returns :
      (f father : File) (perm : ℕ) (before w : W)
      → parent users files f before ≡ ok father before
      → exists users files father w ≡ true
      → (w' : W) × (make_dir users files f perm w ≡ ok tt w')
  unfolding make_dir exists
  make_dir_returns f father perm before w at there =
      let w1 = (files.mkdir f.full_name perm w).1 in
      elim (Answer-cases (files.mkdir f.full_name perm w).0) [
        | inl (u, made) ↦
            let (v, set) =
              set_permissions_returns f perm w1 (laws.mkdir_makes f.full_name perm w made) in
            (v, rw (made, make_dir) (rw set refl))
        | inr (errno, unmade) ↦
            let there' : exists users files f w1 ≡ true =
              elim (writable.mkdir_works f father perm before w at there) [
                | inl made ↦ absurd (ground (arith, made, unmade))
                | inr old ↦ old
              ] in
            let (v, e) = make_dir_failed_returns f perm errno w1 there' in
            (v, rw (unmade, make_dir) e)
      ]

  -- On a file system as `IsFileSystem` describes it, where `mkdir` and `chmod` work (`IsWritable`),
  -- and for an absolute name that is shorter than the bound on the recursion: `make_path` returns,
  -- and then the directory's path exists, however many of the directories above it were missing.
  pub make_path_returns :
      (levels : ℕ) (f : File) (perm : ℕ) (w : W)
      → starts_with_slash f.full_name ≡ true
      → length f.full_name < levels
      → (w' : W) × (make_path users files levels f perm w ≡ ok tt w')
        × (exists users files f w' ≡ true)
  make_path_returns zero f perm w h enough = absurd (omega arith)
  make_path_returns (suc levels) f perm w h enough =
      let (father, at, ways) = parent_cases users files laws f w h in
      let step = make_path_step users files laws levels f father perm w at in
      elim ways [
        | inl there ↦
            let (w', made) = make_dir_returns f father perm w w at there in
            let all = step ∙ rw there made in
            (w', all, make_path-exists users files laws (suc levels) f perm w w' all)
        | inr (missing, shorter, slash) ↦
            let (v, above, there) =
              make_path_returns levels father (bit_or perm 0o700) w slash (omega arith) in
            let (w', made) = make_dir_returns f father perm w v at there in
            let all = step ∙ rw missing (rw above made) in
            (w', all, make_path-exists users files laws (suc levels) f perm w w' all)
      ]

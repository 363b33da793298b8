-- ===== src/File/Directories/MakePath.antt =====
-- `make_path` ends, and leaves an existing path behind if it does not throw.
pub mod Success
use Prim.Native.Nat.{bit_or}
use okssystem.Prelude.{
  ℕ, zero, suc, ◌<◌, ◌≡◌, ◌≢◌, ◌⊎◌, inl, inr, refl, sym, ◌∙◌, true, false, some, [], ◌∷◌, arith,
  Bool-cases, Option-cases, length, Text, stack_overflow, ok, err, bind_out, bind_out-eq-ok,
  Out-cases, state_of, Issue,
}
use okssystem.Calls.{done, UserCalls, FileCalls}
use okssystem.File.Names.{slash_char, starts_with_slash, parent_name}
use okssystem.File.Names.Parts.{length-parent_name, parent_name_absolute}
use okssystem.File.Object.{File, file, parent, exists, is_directory, answered}
use okssystem.File.Directories.{set_permissions, make_dir, make_dir_failed, make_father, make_path}

-- What `make_path` relies on: the root directory exists, what `realpath` resolves exists, `mkdir`
-- makes its path exist if it succeeds, and `chmod` removes nothing.
pub record IsFileSystem {W : Type 0} (files : FileCalls W) : Type 0 where
  pub root_exists : (w : W) → answered (files.stat (slash_char ∷ []) w) ≡ true
  pub real_exists :
      (p q : Text) (w : W) → files.realpath p w ≡ some q → answered (files.stat q w) ≡ true
  pub mkdir_makes :
      (p : Text) (m : ℕ) (w : W)
      → (files.mkdir p m w).0 ≡ done tt
      → answered (files.stat p (files.mkdir p m w).1) ≡ true
  pub chmod_keeps :
      (p q : Text) (m : ℕ) (w : W)
      → answered (files.stat q w) ≡ true
      → answered (files.stat q (files.chmod p m w).1) ≡ true

module _ {W : Type 0} (users : UserCalls W) (files : FileCalls W) (laws : IsFileSystem files) where
  -- An absolute name is taken as `realpath` gives it, or as it stands.
  file_cases :
      (name : Text) (w : W)
      → starts_with_slash name ≡ true
      → (f : File) × (file users files name w ≡ ok f w)
        × ((exists users files f w ≡ true) ⊎ (f.full_name ≡ name))
  unfolding file exists
  file_cases [] w h = absurd (ground arith)
  file_cases (c ∷ name) w h = elim (Option-cases (files.realpath (c ∷ name) w)) [
    | inl e ↦ (record { full_name = c ∷ name }, ground arith, inr refl)
    | inr (q, e) ↦ (record { full_name = q }, ground arith, inl (laws.real_exists (c ∷ name) q w e))
  ]

  abbrev pub ParentCases : File → W → Type 0
  ParentCases f w =
      (father : File) × (parent users files f w ≡ ok father w)
      × ((exists users files father w ≡ true)
          ⊎ ((exists users files father w ≡ false)
              × (length father.full_name < length f.full_name)
              × (starts_with_slash father.full_name ≡ true)))

  pub parent_cases : (f : File) (w : W) → starts_with_slash f.full_name ≡ true → ParentCases f w
  unfolding parent exists
  parent_cases f w h =
      let slash = parent_name_absolute f.full_name h in
      let (father, e, ways) = file_cases (parent_name f.full_name) w slash in
      (
        father,
        e,
        elim ways [
          | inl there ↦ inl there
          | inr same ↦ elim (length-parent_name f.full_name) [
            | inr root ↦ inl (rw (same ∙ root) (laws.root_exists w))
            | inl shorter ↦ elim (Bool-cases (exists users files father w)) [
              | inl there ↦ inl there
              | inr missing ↦ inr (missing, rw same shorter, rw same slash)
            ]
          ]
        ],
      )

  set_permissions_keeps :
      (f : File) (perm : ℕ) (q : Text) (w : W)
      → answered (files.stat q w) ≡ true
      → answered (files.stat q (state_of (set_permissions users files f perm w))) ≡ true
  unfolding set_permissions
  set_permissions_keeps f perm q w h = ground (arith, laws.chmod_keeps f.full_name q perm w h)

  make_dir_failed-exists :
      (f : File) (perm errno : ℕ) (w w' : W)
      → make_dir_failed users files f perm errno w ≡ ok tt w'
      → exists users files f w' ≡ true
  unfolding make_dir_failed exists is_directory
  make_dir_failed-exists f perm errno w w' h =
      ground (arith, set_permissions_keeps f perm f.full_name w)

  -- A `make_dir` that returns leaves the path in existence.
  make_dir-exists :
      (f : File) (perm : ℕ) (w w' : W)
      → make_dir users files f perm w ≡ ok tt w'
      → exists users files f w' ≡ true
  unfolding make_dir exists
  make_dir-exists f perm w w' h =
      let w1 = (files.mkdir f.full_name perm w).1 in
      ground (
        arith,
        set_permissions_keeps f perm f.full_name w1,
        laws.mkdir_makes f.full_name perm w,
        λ (errno : ℕ). make_dir_failed-exists f perm errno w1 w',
      )

  make_dir_bounded :
      (f : File) (perm : ℕ) (w s : W) → make_dir users files f perm w ≢ err stack_overflow s
  unfolding make_dir
  make_dir_bounded f perm w s h = ground arith

  -- One level of `make_path`, if the levels above it do what is wanted.
  pub make_path_step :
      (levels : ℕ) (f father : File) (perm : ℕ) (w : W)
      → parent users files f w ≡ ok father w
      → make_path users files (suc levels) f perm w
        ≡ bind_out
            (make_father users files (make_path users files levels) father perm w)
            (λ _. make_dir users files f perm)
  unfolding make_path
  make_path_step levels f father perm w e = rw (e, make_path) refl

  make_path_bounded :
      (levels : ℕ) (f : File) (perm : ℕ) (w s : W)
      → starts_with_slash f.full_name ≡ true
      → length f.full_name < levels
      → make_path users files levels f perm w ≢ err stack_overflow s
  make_path_bounded zero f perm w s h enough e = absurd (omega arith)
  make_path_bounded (suc levels) f perm w s h enough e =
      let (father, at, ways) = parent_cases f w h in
      let step = sym (make_path_step levels f father perm w at) ∙ e in
      elim ways [
        | inl there ↦ make_dir_bounded f perm w s (ground (arith, step))
        | inr (missing, shorter, slash) ↦
            elim (Out-cases (make_path users files levels father (bit_or perm 0o700) w)) [
              | inl (x, v, above) ↦ make_dir_bounded f perm v s (ground (arith, step, above))
              | inr (issue, v, above) ↦
                  make_path_bounded levels father (bit_or perm 0o700) w s slash (omega arith)
                    (ground (arith, step, above))
            ]
      ]

  pub make_path-exists :
      (levels : ℕ) (f : File) (perm : ℕ) (w w' : W)
      → make_path users files levels f perm w ≡ ok tt w'
      → exists users files f w' ≡ true
  unfolding make_path
  make_path-exists zero f perm w w' h = cc
  make_path-exists (suc levels) f perm w w' h =
      let (father, v, up, rest) = bind_out-eq-ok (parent users files f w) _ h in
      let (x, u, made, last) =
        bind_out-eq-ok (make_father users files (make_path users files levels) father perm v) _
          rest in
      make_dir-exists f perm u w' last

  -- On a file system as `IsFileSystem` describes it, and for an absolute name that is shorter than
  -- the bound on the recursion, `make_path` ends: it returns, and then the directory's path exists,
  -- or it throws an issue other than the overflow of the recursion.
  pub make_path_outcome :
      (levels : ℕ) (f : File) (perm : ℕ) (w : W)
      → starts_with_slash f.full_name ≡ true
      → length f.full_name < levels
      → ((w' : W) × (make_path users files levels f perm w ≡ ok tt w')
          × (exists users files f w' ≡ true))
        ⊎ ((e : Issue) × (w' : W) × (make_path users files levels f perm w ≡ err e w')
            × (e ≢ stack_overflow))
  make_path_outcome levels f perm w h enough =
      elim (Out-cases (make_path users files levels f perm w)) [
        | inl (u, w', e) ↦ inl (w', e, make_path-exists levels f perm w w' e)
        | inr (issue, w', e) ↦
            inr
              (issue, w', e, λ same. make_path_bounded levels f perm w w' h enough (rw (← same) e))
      ]

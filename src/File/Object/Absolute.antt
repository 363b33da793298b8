-- ===== src/File/Object/Absolute.antt =====
-- The name of a `File` is an absolute path, and a home directory without a slash behind it throws.
use okssystem.Prelude.{
  ℕ, ◌≡◌, sym, ◌∙◌, true, none, some, [], ◌∷◌, ◌++◌, arith, ◌==◌, Bool-cases, Option-cases, inl,
  inr, Text, codes, Lacks, find, find_of_Lacks, out_of_range, ok, err, bind_out-eq-ok, ◌-◌, take,
  drop,
}
use okssystem.Calls.{Answer-cases, done, Passwd, UserCalls, FileCalls}
use okssystem.User.{User, of_name, home, current_user}
use okssystem.User.Resolve.{look_up, resolve_outcome}
use okssystem.File.Names.{slash_char, starts_with_slash}
use okssystem.File.Object.{
  File, home_path, home_owner, long_path, file, expand_home, working_directory,
}

-- The working directory, the paths that `realpath` gives and the home directories are absolute.
pub record GivesAbsolute {W : Type 0} (users : UserCalls W) (files : FileCalls W) : Type 0 where
  pub absolute_cwd : (w : W) (d : Text) → files.getcwd w ≡ done d → starts_with_slash d ≡ true
  pub absolute_real :
      (p q : Text) (w : W) → files.realpath p w ≡ some q → starts_with_slash q ≡ true
  pub absolute_home :
      (id : ℕ) (w : W) (p : Passwd)
      → look_up users id w ≡ some p
      → starts_with_slash p.pw_dir ≡ true

pub starts-append : (d s : Text) → starts_with_slash d ≡ true → starts_with_slash (d ++ s) ≡ true
starts-append [] s h = absurd (ground arith)
starts-append (c ∷ d) s h = h

module _ {W : Type 0} (users : UserCalls W) (files : FileCalls W) where
  -- A path `~user` without a slash makes `expand_home`, and every constructor of a name, throw
  -- `std::out_of_range`.
  pub file_tilde :
      (name : Text) (w : W)
      → Lacks slash_char name
      → file users files (b'~' ∷ name) w ≡ err out_of_range w
  unfolding file
  file_tilde name w h =
      let e : find slash_char (b'~' ∷ name) ≡ none =
        find_of_Lacks slash_char (b'~' ∷ name) (omega arith, h) in
      ground (arith, e)

  home_owner-home :
      (name : Text) (w w' : W) (u : User)
      → home_owner users files name w ≡ ok u w'
      → u.user_home ≡ []
  unfolding of_name current_user
  home_owner-home name w w' u h = ground arith

  expand_home-home_path :
      (c : ℕ) (path : Text) (slash : ℕ) (w : W)
      → (c == b'~') ≡ true
      → find slash_char (c ∷ path) ≡ some slash
      → expand_home users files (c ∷ path) w ≡ home_path users files slash (c ∷ path) w
  unfolding expand_home
  expand_home-home_path c path slash w e here = rw (e, expand_home) (rw here)

  module _ (laws : GivesAbsolute users files) where
    home_absolute :
        (u u' : User) (w w' : W)
        → u.user_home ≡ []
        → home users u w ≡ ok u' w'
        → starts_with_slash u'.user_home ≡ true
    unfolding home
    home_absolute u u' w w' e h = elim (resolve_outcome users u w) [
      | inl (p, entry, done_it) ↦ ground (arith, laws.absolute_home u.user_id w p entry)
      | inr (issue, _, thrown) ↦ ground arith
    ]

    home_path_absolute :
        (slash : ℕ) (path p : Text) (w w' : W)
        → home_path users files slash path w ≡ ok p w'
        → starts_with_slash p ≡ true
    unfolding home_path
    home_path_absolute slash path p w w' h =
        let (u, v, owned, rest) =
          bind_out-eq-ok (home_owner users files (take (slash - 1) (drop 1 path)) w) _ h in
        let (u', v', homed, last) = bind_out-eq-ok (home users u v) _ rest in
        let dir =
          home_absolute u u' v v' (home_owner-home (take (slash - 1) (drop 1 path)) w v u owned)
            homed in
        ground (arith, starts-append u'.user_home (drop slash path) dir)

    expand_home_absolute :
        (name p : Text) (w w' : W)
        → expand_home users files name w ≡ ok p w'
        → starts_with_slash p ≡ true
    unfolding expand_home
    expand_home_absolute [] p w w' h = cc
    expand_home_absolute (c ∷ path) p w w' h = elim (Bool-cases (c == b'~')) [
      | inr e ↦ ground arith
      | inl e ↦ elim (Option-cases (find slash_char (c ∷ path))) [
        | inl missing ↦ ground arith
        | inr (slash, here) ↦
            home_path_absolute slash (c ∷ path) p w w'
              (sym (expand_home-home_path c path slash w e here) ∙ h)
      ]
    ]

    long_path_absolute :
        (c : ℕ) (name p : Text) (w w' : W)
        → long_path users files c (c ∷ name) w ≡ ok p w'
        → starts_with_slash p ≡ true
    unfolding working_directory
    long_path_absolute c name p w w' h = elim (Bool-cases (c == slash_char)) [
      | inl e ↦ ground arith
      | inr e ↦ elim (Bool-cases (c == b'~')) [
        | inl t ↦ expand_home_absolute (c ∷ name) p w w' (ground arith)
        | inr t ↦ elim (Answer-cases (files.getcwd w)) [
          | inl (d, a) ↦
              ground (arith, laws.absolute_cwd w d a, starts-append d (codes "/" ++ (c ∷ name)))
          | inr (errno, a) ↦ ground arith
        ]
      ]
    ]

    -- If the working directory, the results of `realpath` and the home directories are absolute
    -- (`GivesAbsolute`), every `File` that could be made has an absolute name.
    pub file_absolute :
        (name : Text) (f : File) (w w' : W)
        → file users files name w ≡ ok f w'
        → starts_with_slash f.full_name ≡ true
    unfolding file
    file_absolute [] f w w' h = cc
    file_absolute (c ∷ name) f w w' h =
        let (p, v, made, rest) = bind_out-eq-ok (long_path users files c (c ∷ name) w) _ h in
        let long = long_path_absolute c name p w v made in
        elim (Option-cases (files.realpath p v)) [
          | inl e ↦ ground arith
          | inr (q, e) ↦ ground (arith, laws.absolute_real p q v e)
        ]

-- ===== src/File/Copies.antt =====
-- src/File.cpp: the constructors of `File` from a C string and from another file, which resolves the
-- name again.
use okssystem.Prelude.{
  ◌≡◌, ◌⊎◌, Bool, true, not, Option, none, some, Option-cases, inl, inr, [], ◌∷◌, arith, Text,
  Issue, M, ok, err, bind_out-eq-ok,
}
use okssystem.Calls.{UserCalls, FileCalls}
use okssystem.StringMemoryArea.{c_str}
use okssystem.File.Names.{starts_with_slash}
use okssystem.File.Object.{File, file, long_path, same_file}
use okssystem.File.Object.Absolute.{GivesAbsolute, file_absolute}

-- `operator!=`
abbrev pub not_same_file : File → File → Bool
not_same_file a b = not (same_file a b)

module _ {W : Type 0} (users : UserCalls W) (files : FileCalls W) where
  -- `File(const char *)`; `none` is the null pointer.
  unfoldable pub file_of_c_str : Option Text → M W File
  unfolding file c_str
  file_of_c_str none w = err Issue.assertion w
  file_of_c_str (some c_name) w = file users files (c_str c_name) w

  -- `File(const File &)`
  unfoldable pub copy_file : File → M W File
  unfolding file
  copy_file other = file users files other.full_name

  -- `file` of an absolute path, by what `realpath` gives.
  pub file_of_real :
      (name q : Text) (w : W)
      → starts_with_slash name ≡ true
      → files.realpath name w ≡ some q
      → file users files name w ≡ ok (record { full_name = q }) w
  unfolding file
  file_of_real [] q w h e = absurd (ground arith)
  file_of_real (c ∷ name) q w h e = ground (arith, h, e)

  pub file_of_none :
      (name : Text) (w : W)
      → starts_with_slash name ≡ true
      → files.realpath name w ≡ none
      → file users files name w ≡ ok (record { full_name = name }) w
  unfolding file
  file_of_none [] w h e = absurd (ground arith)
  file_of_none (c ∷ name) w h e = ground (arith, h, e)

  -- On either way the constructor returns and changes nothing.
  pub file_of_absolute :
      (name : Text) (w : W)
      → starts_with_slash name ≡ true
      → (f : File) × (file users files name w ≡ ok f w)
  file_of_absolute name w h = elim (Option-cases (files.realpath name w)) [
    | inl e ↦ (record { full_name = name }, file_of_none name w h e)
    | inr (q, e) ↦ (record { full_name = q }, file_of_real name q w h e)
  ]

  -- Where a file gets its name from.
  file_source :
      (name : Text) (f : File) (w w' : W)
      → file users files name w ≡ ok f w'
      → (p : Text) × ((files.realpath p w' ≡ some f.full_name)
          ⊎ ((files.realpath p w' ≡ none) × (f.full_name ≡ p)))
  unfolding file
  file_source [] f w w' h = cc
  file_source (c ∷ name) f w w' h =
      let (p, v, made, rest) = bind_out-eq-ok (long_path users files c (c ∷ name) w) _ h in
      elim (Option-cases (files.realpath p v)) [
        | inl e ↦ (p, inr (ground (arith, e), ground (arith, e)))
        | inr (q, e) ↦ (p, inl (ground (arith, e)))
      ]

  -- If names are absolute (`GivesAbsolute`) and `realpath` keeps what it gives, a copy of a file that
  -- was made has the same name, and copying changes nothing: also of a file that does not exist.
  pub copy_file-file :
      GivesAbsolute users files
      → ((p q : Text) (w : W) → files.realpath p w ≡ some q → files.realpath q w ≡ some q)
      → (name : Text) (f : File) (w w' : W) → file users files name w ≡ ok f w'
      → copy_file f w' ≡ ok f w'
  unfolding copy_file
  copy_file-file laws idempotent name f w w' h =
      let (p, source) = file_source name f w w' h in
      let long = file_absolute users files laws name f w w' h in
      elim source [
        | inl real ↦ file_of_real f.full_name f.full_name w' long (idempotent p f.full_name w' real)
        | inr (missing, same) ↦ file_of_none f.full_name w' long (rw same missing)
      ]

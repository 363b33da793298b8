-- ===== src/Path/Parse.antt =====
-- What `parse_path_list` makes of a text: its names between separators, without the empty ones.
use okssystem.Prelude.{
  ℕ, zero, suc, ◌+◌, ◌≤◌, ◌≡◌, ◌⊎◌, append-nil, ◌≢◌, refl, ap, sym, ◌∙◌, true, none, some,
  Option-cases, inl, inr, List, [], ◌∷◌, ◌++◌, append_assoc, arith, length, All, Text, Lacks, find,
  M, Out-cases, ok, pure, bind_out, ◌>>=◌, tokens, fields, nonempty, tokens-nonempty, tokens-join,
  nonempty_of_All, join, fields_step, fields_last, fields-nil, write_separated-join, length-drop,
}
use okssystem.Calls.{UserCalls, FileCalls}
use okssystem.File.Names.{starts_with_slash}
use okssystem.File.Object.{File, file}
use okssystem.Path.{
  SearchPath, path_separator, empty_path, add, full_names, to_string, write_to, split_name,
  add_name, parse_rounds, parse_path_list, path_of,
}

module _ {W : Type 0} (users : UserCalls W) (files : FileCalls W) where
  -- The directories of a list of names, added one after the other.
  unfoldable pub add_names : List Text → SearchPath → M W SearchPath
  unfolding add_name
  add_names [] path = pure path
  add_names (name ∷ names) path = do longer ← add_name users files name path; add_names names longer

  add_name_nil : (path : SearchPath) (w : W) → add_name users files [] path w ≡ ok path w
  unfolding add_name
  add_name_nil path w = refl

  add_names-nonempty :
      (names : List Text) (path : SearchPath) (w : W)
      → add_names (nonempty names) path w ≡ add_names names path w
  unfolding add_names add_name
  add_names-nonempty [] path w = refl
  add_names-nonempty ([] ∷ names) path w = add_names-nonempty names path w
  add_names-nonempty ((c ∷ name) ∷ names) path w =
      elim (Out-cases (add_name users files (c ∷ name) path w)) [
        | inl (longer, w', e) ↦ rw e (add_names-nonempty names longer w')
        | inr (issue, w', e) ↦ rw e refl
      ]

  add_one : (i : ℕ) → i + 1 ≡ suc i
  add_one i = omega arith

  -- One round takes the first name off.
  fields_round :
      (c : ℕ) (rest : Text) (path : SearchPath) (w : W)
      → add_names (fields path_separator (c ∷ rest)) path w
        ≡ bind_out
            (add_name users files (split_name (c ∷ rest)).0 path w)
            (add_names (fields path_separator (split_name (c ∷ rest)).1))
  unfolding split_name add_names add_name
  fields_round c rest path w = elim (Option-cases (find path_separator (c ∷ rest))) [
    | inl e ↦
        rw (fields_last path_separator (c ∷ rest) e, e, fields-nil path_separator, split_name) refl
    | inr (i, e) ↦
        rw (fields_step path_separator (c ∷ rest) i e, e, split_name) (rw (add_one i) refl)
  ]

  split_name_shorter : (c : ℕ) (rest : Text) → length (split_name (c ∷ rest)).1 ≤ length rest
  unfolding split_name
  split_name_shorter c rest = elim (Option-cases (find path_separator (c ∷ rest))) [
    | inl e ↦ rw (e, length, split_name) (ground arith)
    | inr (i, e) ↦ rw (e, length, split_name) (omega (arith, length-drop (i + 1) (c ∷ rest)))
  ]

  parse_rounds-fields :
      (rounds : ℕ) (rest : Text) (path : SearchPath) (w : W)
      → length rest ≤ rounds
      → parse_rounds users files rounds rest path w ≡ add_names (fields path_separator rest) path w
  unfolding parse_rounds add_names
  parse_rounds-fields rounds [] path w enough =
      rw (fields-nil path_separator) (sym (add_name_nil path w))
  parse_rounds-fields zero (c ∷ rest) path w enough = absurd (ground arith)
  parse_rounds-fields (suc rounds) (c ∷ rest) path w enough =
      elim (Out-cases (add_name users files (split_name (c ∷ rest)).0 path w)) [
        | inl (longer, w', e) ↦
            rw (fields_round c rest path w, e)
              (parse_rounds-fields rounds _ longer w' (omega (arith, split_name_shorter c rest)))
        | inr (issue, w', e) ↦ rw (fields_round c rest path w, e) refl
      ]

  -- The loop ends, and adds the directories that stand between the separators, in their order and
  -- without the empty names.
  pub parse_path_list-tokens :
      (path_list : Text) (path : SearchPath) (w : W)
      → parse_path_list users files path_list path w
        ≡ add_names (tokens path_separator path_list) path w
  unfolding parse_path_list
  parse_path_list-tokens path_list path w =
      parse_rounds-fields (length path_list) path_list path w (omega arith)
      ∙ sym (add_names-nonempty (fields path_separator path_list) path w)
      ∙ ap (λ names. add_names names path w) (sym (tokens-nonempty path_separator path_list))

  -- A directory whose name a new `File` keeps, and that can stand in a path.
  abbrev pub IsStable : W → File → Type 0
  IsStable w f =
      (starts_with_slash f.full_name ≡ true)
      × (Lacks path_separator f.full_name)
      × ((files.realpath f.full_name w ≡ none) ⊎ (files.realpath f.full_name w ≡ some f.full_name))

  file_of_IsStable : (f : File) (w : W) → IsStable w f → file users files f.full_name w ≡ ok f w
  unfolding file
  file_of_IsStable f w (slash, lacks, real) = ground arith

  add_name_of_IsStable :
      (f : File) (path : SearchPath) (w : W)
      → IsStable w f
      → add_name users files f.full_name path w ≡ ok (add f path) w
  unfolding add_name add
  add_name_of_IsStable f path w stable = ground (arith, file_of_IsStable f w stable, stable.0)

  add_names-full_names :
      (fs : List File) (path : SearchPath) (w : W)
      → All (IsStable w) fs
      → add_names (full_names fs) path w
        ≡ ok (record { m_directories = path.m_directories ++ fs }) w
  unfolding add_names add_name add
  add_names-full_names [] path w h = rw (append-nil path.m_directories) refl
  add_names-full_names (f ∷ fs) path w (stable, h) = rw (add_name_of_IsStable f path w stable) (
      add_names-full_names fs (add f path) w h
      ∙ ap (λ ds. ok (record { m_directories = ds }) w)
          (append_assoc path.m_directories (f ∷ []) fs))

  names_lack :
      (fs : List File) (w : W) → All (IsStable w) fs → All (Lacks path_separator) (full_names fs)
  names_lack [] w h = tt
  names_lack (f ∷ fs) w ((_, lacks, _), h) = (lacks, names_lack fs w h)

  names_nonempty :
      (fs : List File) (w : W) → All (IsStable w) fs → All (λ p. p ≢ []) (full_names fs)
  names_nonempty [] w h = tt
  names_nonempty (f ∷ fs) w ((slash, _, _), h) =
      (λ e. ground (arith, slash, e), names_nonempty fs w h)

  -- A path of directories with absolute names that hold no separator and that `realpath` keeps is
  -- read back as it was printed.
  pub path_of-to_string :
      (path : SearchPath) (w : W)
      → All (IsStable w) path.m_directories
      → path_of users files (to_string path) w ≡ ok path w
  unfolding path_of to_string write_to
  path_of-to_string path w h =
      let names = full_names path.m_directories in
      rw (write_separated-join path_separator names) (
        parse_path_list-tokens (join path_separator names) empty_path w
        ∙ ap (λ ns. add_names ns empty_path w)
            (tokens-join path_separator names (names_lack path.m_directories w h)
              ∙ nonempty_of_All names (names_nonempty path.m_directories w h))
        ∙ add_names-full_names path.m_directories empty_path w h)

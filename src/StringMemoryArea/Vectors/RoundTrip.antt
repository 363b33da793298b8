-- ===== src/StringMemoryArea/Vectors/RoundTrip.antt =====
-- A vector that is inserted is read back, less its empty strings.
use okssystem.Prelude.{
  ℕ, ◌+◌, ◌<◌, ◌≡◌, refl, ap, sym, ◌∙◌, List, [], ◌∷◌, ◌++◌, append_assoc, append-nil, arith, true,
  length, Text, Lacks, All, ok, nonempty, fields, tokens, tokens-join, join, fold_pieces,
  for_pieces-fields, write_separated-join, tokens-nonempty, join-Lacks, ◌>>=◌,
}
use okssystem.StringMemoryArea.{Area}
use okssystem.StringMemoryArea.Strings.{IsValid, read_text-add}
use okssystem.StringMemoryArea.Vectors.{
  string_separator, push_extract, split_vector, get_vector, vector_stream, insert_vector,
}

push_extract_nonempty :
    (x : ℕ) (p : Text) (vector : List Text) → push_extract (x ∷ p) vector ≡ vector ++ (x ∷ p) ∷ []
push_extract_nonempty x p vector = ground arith

fold-push_extract :
    (ps vector : List Text)
    → fold_pieces string_separator push_extract ps vector ≡ vector ++ nonempty ps
fold-push_extract [] vector = sym (append-nil vector)
fold-push_extract ([] ∷ ps) vector = fold-push_extract ps vector
fold-push_extract ((x ∷ p) ∷ ps) vector = rw (push_extract_nonempty x p vector) (
    fold-push_extract ps (vector ++ (x ∷ p) ∷ [])
    ∙ append_assoc vector ((x ∷ p) ∷ []) (nonempty ps))

-- The loop of `get_vector` ends within its rounds with all parts that are not empty, in order.
pub split_vector-tokens : (text : Text) → split_vector text ≡ tokens string_separator text
unfolding split_vector
split_vector-tokens text =
    for_pieces-fields string_separator push_extract (λ vector. refl) (length text) text 0 []
      (omega arith)
    ∙ fold-push_extract (fields string_separator text) []
    ∙ sym (tokens-nonempty string_separator text)

vector_stream-join : (vs : List Text) → vector_stream vs ≡ join string_separator vs
unfolding vector_stream
vector_stream-join vs = write_separated-join string_separator vs

-- In a valid and readable area, a vector of strings without separators and NULs that is inserted as
-- a new string is read back less its empty strings, if its text fits.
pub get_vector-insert_vector :
    (a : Area) (vs : List Text)
    → IsValid a
    → a.readable ≡ true
    → All (Lacks string_separator) vs
    → All (Lacks 0) vs
    → a.last_string + 1 + length (vector_stream vs) < a.string_area_size
    → (b : Area) × (insert_vector 0 vs a ≡ ok (a.last_string + 1) b)
      × (get_vector (a.last_string + 1) b ≡ ok (nonempty vs) b)
      × IsValid b
unfolding insert_vector get_vector
get_vector-insert_vector a vs v r separators nuls fits =
    let text = vector_stream vs in
    let clean : Lacks 0 text =
      rw (vector_stream-join vs) (join-Lacks string_separator 0 vs (omega arith) nuls) in
    let parts : split_vector text ≡ nonempty vs =
      split_vector-tokens text
      ∙ ap (tokens string_separator) (vector_stream-join vs)
      ∙ tokens-join string_separator vs separators in
    let (b, added, got, read, valid, _) = read_text-add a text v r clean fits in
    (b, added, rw (got, ◌>>=◌) (rw (read, ◌>>=◌) (rw parts)), valid)

-- ===== src/StringMemoryArea/Vectors.antt =====
-- src/StringMemoryArea.cpp, `get_vector` and the two `insert`s of a vector of strings.
pub mod RoundTrip
use okssystem.Prelude.{
  ℕ, ◌+◌, Option, none, some, List, [], ◌∷◌, ◌++◌, true, ltb, if◌then◌else◌, length, Text, M, ok,
  err, pure, ◌>>=◌, assertion, write_separated, for_pieces,
}
use okssystem.StringMemoryArea.{Area, get_string, read_text, insert}

-- `STRING_SEPARATOR`
abbrev pub string_separator : ℕ
string_separator = 3

-- `if (extract.size() > 0) vector.push_back(extract)`
abbrev pub push_extract : Text → List Text → List Text
push_extract extract vector = if ltb 0 (length extract) then vector ++ extract ∷ [] else vector

-- The loop of `get_vector`: each round moves `start_p`, so the length of the text bounds the rounds.
unfoldable pub split_vector : Text → List Text
unfolding for_pieces
split_vector text = for_pieces string_separator push_extract (length text) text 0 []

unfoldable pub get_vector : ℕ → M Area (List Text)
unfolding get_string read_text split_vector
get_vector offset = do
  str ← get_string offset
  elim str [ none ↦ pure [] | some p ↦ (do text ← read_text p; pure (split_vector text)) ]

-- The stream that `insert` of a vector fills.
unfoldable pub vector_stream : List Text → Text
unfolding write_separated
vector_stream vect = write_separated string_separator vect true []

-- `insert(offset_t, const str_vector&)`
unfoldable pub insert_vector : ℕ → List Text → M Area ℕ
unfolding vector_stream insert
insert_vector offset vect = insert offset (some (vector_stream vect))

-- `insert(offset_t*, const str_vector&)`: the value that the caller's variable has afterwards.
unfoldable pub insert_vector_ref : Option ℕ → List Text → M Area ℕ
unfolding insert_vector
insert_vector_ref none vect a = err assertion a
insert_vector_ref (some offset) vect a = insert_vector offset vect a

-- ===== src/StringMemoryArea/Maps.antt =====
-- src/StringMemoryArea.cpp, `get_map` and the two `insert`s of a map of strings. A
-- `std::map<std::string, std::string>` is the list of its entries in the order of their keys.
pub mod RoundTrip
use okssystem.Prelude.{
  ℕ, ◌+◌, Bool, true, false, ◌&&◌, ◌||◌, Option, none, some, List, [], ◌∷◌, ◌++◌, map, ltb, ◌==◌,
  if◌then◌else◌, length, take, drop, Text, text_eq, find, M, ok, err, pure, ensure, ◌>>=◌, ◌>>◌,
  assertion, write_separated, for_pieces,
}
use okssystem.StringMemoryArea.{Area, get_string, read_text, insert, in_range}
use okssystem.StringMemoryArea.Vectors.{string_separator}

-- `MAP_ENTRY_SEPARATOR`
abbrev pub map_entry_separator : ℕ
map_entry_separator = 4

abbrev pub StrMap : Type 0
StrMap = List (Text × Text)

-- `a < b` on strings.
abbrev pub text_lt : Text → Text → Bool
text_lt a [] = false
text_lt [] (y ∷ b) = true
text_lt (x ∷ a) (y ∷ b) = ltb x y || (x == y && text_lt a b)

-- `map[key] = value`
unfoldable pub assign : Text → Text → StrMap → StrMap
assign key value [] = (key, value) ∷ []
assign key value ((k, v) ∷ m) =
    if text_eq key k
    then (key, value) ∷ m
    else if text_lt key k
    then (key, value) ∷ (k, v) ∷ m
    else (k, v) ∷ assign key value m

-- What a round of `get_map` does with an entry.
unfoldable pub read_entry : Text → StrMap → StrMap
unfolding assign find
read_entry entry m =
    let entry_size = length entry in
    if ltb 0 entry_size
    then elim (find string_separator entry) [
      | none ↦ m
      | some separator_p ↦
          if ltb (separator_p + 1) entry_size
          then assign (take separator_p entry) (drop (separator_p + 1) entry) m
          else assign (take separator_p entry) [] m
    ]
    else m

unfoldable pub split_map : Text → StrMap
unfolding for_pieces read_entry
split_map text = for_pieces map_entry_separator read_entry (length text) text 0 []

unfoldable pub get_map : ℕ → M Area StrMap
unfolding get_string read_text split_map
get_map offset a =
    (do
      ensure (in_range offset a)
      str ← get_string offset
      elim str [ none ↦ pure [] | some p ↦ (do text ← read_text p; pure (split_map text)) ])
      a

-- `stream << pos->first << STRING_SEPARATOR << pos->second`
abbrev pub write_entry : Text × Text → Text
write_entry (key, value) = key ++ (string_separator ∷ value)

-- The stream that `insert` of a map fills.
unfoldable pub map_stream : StrMap → Text
unfolding write_separated
map_stream m = write_separated map_entry_separator (map write_entry m) true []

-- `insert(offset_t, const str_map&)`
unfoldable pub insert_map : ℕ → StrMap → M Area ℕ
unfolding map_stream insert
insert_map offset m = insert offset (some (map_stream m))

-- `insert(offset_t*, const str_map&)`: the value that the caller's variable has afterwards.
unfoldable pub insert_map_ref : Option ℕ → StrMap → M Area ℕ
unfolding insert_map
insert_map_ref none m a = err assertion a
insert_map_ref (some offset) m a = insert_map offset m a

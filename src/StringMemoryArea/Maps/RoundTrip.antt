-- ===== src/StringMemoryArea/Maps/RoundTrip.antt =====
-- A map that is inserted is read back.
use mathlib.Core.List.{map}
use okssystem.Prelude.{
  ℕ, ◌+◌, ◌<◌, ◌≡◌, ◌≢◌, refl, ap, sym, ◌∙◌, some, [], ◌∷◌, ◌++◌, append_assoc, append-nil, arith,
  true, false, ltb, length, take, drop, Text, Lacks, All, All-append, All-imp, ok, fields,
  fields-nil, fields-join, text_eq, find, find-append, take-append_eq, drop-append_eq,
  length-append, join, join-nil, fold_pieces, for_pieces-fields, write_separated-join,
  if◌then◌else◌, join-Lacks, ◌>>=◌,
}
use okssystem.StringMemoryArea.{Area, get_string, read_text, in_range}
use okssystem.StringMemoryArea.Strings.{IsValid, read_text-add}
use okssystem.StringMemoryArea.Vectors.{string_separator}
use okssystem.StringMemoryArea.Maps.{
  map_entry_separator, StrMap, text_lt, assign, read_entry, split_map, get_map, write_entry,
  map_stream, insert_map,
}

text_lt_asymm : (a b : Text) → text_lt a b ≡ true → (text_eq b a ≡ false) × (text_lt b a ≡ false)
text_lt_asymm a [] h = absurd (ground arith)
text_lt_asymm [] (y ∷ b) h = (refl, refl)
text_lt_asymm (x ∷ a) (y ∷ b) h = ground (arith, text_lt_asymm a b)

-- The keys ascend: what the iterators of a map go through.
abbrev pub IsOrdered : StrMap → Type 0
IsOrdered [] = Unit
IsOrdered ((k, v) ∷ m) = All (λ e. text_lt k e.0 ≡ true) m × IsOrdered m

-- No separator and no NUL in the strings, but `STRING_SEPARATOR` may stand in the values.
abbrev pub IsClean : Text × Text → Type 0
IsClean (k, v) =
    Lacks 0 k
    × Lacks 0 v
    × Lacks string_separator k
    × Lacks map_entry_separator k
    × Lacks map_entry_separator v

-- A key above all others is assigned at the end.
assign_last :
    (k v : Text) (m : StrMap) → All (λ e. text_lt e.0 k ≡ true) m → assign k v m ≡ m ++ (k, v) ∷ []
unfolding assign
assign_last k v [] h = refl
assign_last k v ((j, w) ∷ m) (hj, h) = ground (arith, text_lt_asymm j k hj, assign_last k v m h)

value_or_empty :
    (k v : Text) (m : StrMap)
    → (if ltb 0 (length k + 1 + length v)
        then if ltb (length k + 1) (length k + 1 + length v) then assign k v m else assign k [] m
        else m)
      ≡ assign k v m
value_or_empty k [] m = ground arith
value_or_empty k (x ∷ v) m = ground arith

drop-behind : (c : ℕ) (k v : Text) → drop (length k + 1) (k ++ (c ∷ v)) ≡ v
drop-behind c k v =
    let e : length k + 1 ≡ length (k ++ c ∷ []) = sym (length-append k (c ∷ [])) in
    ap (drop (length k + 1)) (sym (append_assoc k (c ∷ []) v)) ∙ drop-append_eq _ (k ++ c ∷ []) v e

read_entry-write_entry :
    (k v : Text) (m : StrMap)
    → Lacks string_separator k
    → read_entry (write_entry (k, v)) m ≡ assign k v m
unfolding read_entry assign
read_entry-write_entry k v m h =
    let entry = write_entry (k, v) in
    let found : find string_separator entry ≡ some (length k) =
      find-append string_separator k v h in
    let key : take (length k) entry ≡ k = take-append_eq (length k) k (string_separator ∷ v) refl in
    let value : drop (length k + 1) entry ≡ v = drop-behind string_separator k v in
    let size : length entry ≡ length k + 1 + length v =
      length-append k (string_separator ∷ v) ∙ omega arith in
    rw (found, read_entry) (rw (size, key, value) (value_or_empty k v m))

-- Reading the written entries in the order of their keys rebuilds the map behind what is there.
fold-read_entry :
    (m acc : StrMap)
    → All IsClean m
    → IsOrdered m
    → All (λ d. All (λ e. text_lt d.0 e.0 ≡ true) m) acc
    → fold_pieces map_entry_separator read_entry (map write_entry m) acc ≡ acc ++ m
fold-read_entry [] acc clean ordered below = sym (append-nil acc)
fold-read_entry ((k, v) ∷ m) acc (c, clean) (above, ordered) below =
    let P = λ (d : Text × Text). All (λ e. text_lt d.0 e.0 ≡ true) ((k, v) ∷ m) in
    let Q = λ (d : Text × Text). All (λ e. text_lt d.0 e.0 ≡ true) m in
    ap (fold_pieces map_entry_separator read_entry (map write_entry m)) (
      read_entry-write_entry k v acc c.2
      ∙ assign_last k v acc (All-imp P (λ d. text_lt d.0 k ≡ true) (λ d h. h.0) acc below))
    ∙ fold-read_entry m (acc ++ (k, v) ∷ []) clean ordered
        (All-append Q acc ((k, v) ∷ []) (All-imp P Q (λ d h. h.1) acc below) (above, tt))
    ∙ append_assoc acc ((k, v) ∷ []) m

write_entry-Lacks :
    (d : ℕ) (m : StrMap)
    → string_separator ≢ d
    → All (λ e. Lacks d e.0 × Lacks d e.1) m
    → All (Lacks d) (map write_entry m)
write_entry-Lacks d [] ne h = tt
write_entry-Lacks d ((k, v) ∷ m) ne (hkv, h) =
    (All-append (λ x. x ≢ d) k (string_separator ∷ v) hkv.0 (ne, hkv.1), write_entry-Lacks d m ne h)

map_stream-join : (m : StrMap) → map_stream m ≡ join map_entry_separator (map write_entry m)
unfolding map_stream
map_stream-join m = write_separated-join map_entry_separator (map write_entry m)

blank_entry : (acc : StrMap) → read_entry [] acc ≡ acc
unfolding read_entry
blank_entry acc = refl

fold-fields-join :
    (m : StrMap)
    → All IsClean m
    → IsOrdered m
    → fold_pieces map_entry_separator read_entry
        (fields map_entry_separator (join map_entry_separator (map write_entry m)))
        []
      ≡ m
fold-fields-join [] clean ordered = rw (join-nil, fields-nil) (blank_entry [])
fold-fields-join (e ∷ m) clean ordered =
    let separators =
      All-imp IsClean (λ d. Lacks map_entry_separator d.0 × Lacks map_entry_separator d.1)
        (λ d h. (h.3, h.4)) (e ∷ m) clean in
    rw
      (fields-join map_entry_separator (write_entry e) (map write_entry m)
        (write_entry-Lacks map_entry_separator (e ∷ m) (omega arith) separators))
      (fold-read_entry (e ∷ m) [] clean ordered tt)

-- The loop of `get_map` undoes the stream of an `insert`.
split_map-map_stream : (m : StrMap) → All IsClean m → IsOrdered m → split_map (map_stream m) ≡ m
unfolding split_map
split_map-map_stream m clean ordered =
    for_pieces-fields map_entry_separator read_entry blank_entry (length (map_stream m))
      (map_stream m) 0 [] (omega arith)
    ∙ ap (λ s. fold_pieces map_entry_separator read_entry (fields map_entry_separator s) [])
        (map_stream-join m)
    ∙ fold-fields-join m clean ordered

get_string-in_range : (p q : ℕ) (a b : Area) → get_string p a ≡ ok (some q) b → in_range p a ≡ true
unfolding get_string
get_string-in_range p q a b h = ground arith

get_map_lem :
    (p : ℕ) (text : Text) (b : Area)
    → get_string p b ≡ ok (some p) b
    → read_text p b ≡ ok text b
    → get_map p b ≡ ok (split_map text) b
unfolding get_map
get_map_lem p text b got read =
    rw (get_string-in_range p p b b got, get_map) (rw (got, ◌>>=◌) (rw (read, ◌>>=◌)))

-- In a valid and readable area, a map in the order of its keys, without separators and NULs in its
-- strings (a value may hold `STRING_SEPARATOR`), that is inserted as a new string is read back
-- unchanged, if its text fits.
pub get_map-insert_map :
    (a : Area) (m : StrMap)
    → IsValid a
    → a.readable ≡ true
    → All IsClean m
    → IsOrdered m
    → a.last_string + 1 + length (map_stream m) < a.string_area_size
    → (b : Area) × (insert_map 0 m a ≡ ok (a.last_string + 1) b)
      × (get_map (a.last_string + 1) b ≡ ok m b)
      × IsValid b
unfolding insert_map
get_map-insert_map a m v r clean ordered fits =
    let text = map_stream m in
    let nuls : All (λ e. Lacks 0 e.0 × Lacks 0 e.1) m =
      All-imp IsClean (λ e. Lacks 0 e.0 × Lacks 0 e.1) (λ e h. (h.0, h.1)) m clean in
    let free : Lacks 0 text = rw (map_stream-join m) (
      join-Lacks map_entry_separator 0 (map write_entry m) (omega arith)
        (write_entry-Lacks 0 m (omega arith) nuls)) in
    let (b, added, got, read, valid, _) = read_text-add a text v r free fits in
    (
      b,
      added,
      get_map_lem _ text b got read ∙ ap (λ r. ok r b) (split_map-map_stream m clean ordered),
      valid,
    )

-- ===== src/Tests/Areas.antt =====
-- The theorems on string areas, at small ones.
use okssystem.Prelude.{
  ℕ, ◌+◌, ◌≡◌, ◌≤◌, ◌<◌, ◌⊎◌, length, true, refl, arith, some, none, List, [], ◌∷◌, ◌++◌, drop,
  replicate, Text, codes, assertion, ok, err, state_of,
}
use okssystem.StringMemoryArea.{
  Area, c_str, c_string, add, get_string, read_text, insert, insert_ref, insert_cleared, store,
  clear, zero_run,
}
use okssystem.StringMemoryArea.Strings.{
  IsValid, IsContained, added, overrun, read_text-add, add_cases,
}
use okssystem.StringMemoryArea.Insert.{IsLoose, insert_loses, insert-IsValid}
use okssystem.StringMemoryArea.Vectors.{string_separator, get_vector, insert_vector, vector_stream}
use okssystem.StringMemoryArea.Vectors.RoundTrip.{get_vector-insert_vector}
use okssystem.StringMemoryArea.Maps.{StrMap, get_map, insert_map, map_stream}
use okssystem.StringMemoryArea.Maps.RoundTrip.{get_map-insert_map}
use okssystem.StringMemoryArea.Variables.{
  Assignment, Cells, Implements, assign, read_variable, run, specified, specified_run,
}
use okssystem.StringMemoryArea.Variables.Refinement.Steps.{HasRoom, assign-Implements}
use okssystem.StringMemoryArea.Variables.Runs.{read_variable-run, unset-Implements}

-- The string "ab" at offset 1.
abbrev area_of : ℕ → Area
area_of spare = record {
  memory = 0 ∷ (codes "ab" ++ 0 ∷ replicate spare 0);
  readable = true;
  last_string = 3;
  string_area_size = spare + 4;
}

area-IsValid : IsValid (area_of 20)
area-IsValid = record { sized = refl; small = omega arith; ended = refl }

tight-IsValid : IsValid (area_of 3)
tight-IsValid = record { sized = refl; small = omega arith; ended = refl }

-- Two variables: the second assignment to the first one is longer, the last one does not fit.
abbrev assignments : List Assignment
assignments =
    (0, codes "ab") ∷ (1, codes "cd") ∷ (0, codes "efg") ∷ (1, codes "a text that is too long") ∷ []

abbrev unset_cells : Cells
unset_cells = record { offsets = λ j. 0; area = area_of 20 }

read_variable-run_example :
    (let (answers, c) = run assignments unset_cells in
      read_variable 0 c ≡ specified_run assignments answers (λ j. none) 0)
unfolding assign insert_ref insert insert_cleared add store clear zero_run c_str
read_variable-run_example = read_variable-run (area_of 20) assignments 0 area-IsValid refl (
  (omega arith, λ e. ground (arith, e)),
  (
    (omega arith, λ e. ground (arith, e)),
    ((omega arith, λ e. ground (arith, e)), ((omega arith, λ e. ground (arith, e)), tt)),
  ),
)

assign-Implements_example :
    Implements
      (specified 5 (codes "abc") (assign 5 (codes "abc") unset_cells).0 (λ j. none))
      (assign 5 (codes "abc") unset_cells).1.offsets
      (assign 5 (codes "abc") unset_cells).1.area
    × (HasRoom (λ j. none) 5 (codes "abc") (area_of 20)
        → (assign 5 (codes "abc") unset_cells).0 ≡ true)
unfolding c_str
assign-Implements_example =
    assign-Implements (λ j. none) unset_cells 5 (codes "abc")
      (unset-Implements (area_of 20) area-IsValid refl) (omega arith, λ e. ground (arith, e))

read_text-add_example :
    (b : Area) × (add (some (codes "xyz")) (area_of 20) ≡ ok 4 b)
    × (get_string 4 b ≡ ok (some 4) b)
    × (read_text 4 b ≡ ok (codes "xyz") b)
    × IsValid b
    × ((q : ℕ) → q ≤ 3 → c_string (drop q b.memory) ≡ c_string (drop q (area_of 20).memory))
read_text-add_example =
    read_text-add (area_of 20) (codes "xyz") area-IsValid refl (ground arith) (omega arith)

add_cases_example :
    (7 < 7 → add (some (codes "xyz")) (area_of 3) ≡ ok 4 (added (codes "xyz") (area_of 3)))
    × (◌≡◌ {A = ℕ} 7 7
        → add (some (codes "xyz")) (area_of 3) ≡ ok 4 (overrun (codes "xyz") (area_of 3)))
    × (7 < 7 → add (some (codes "xyz")) (area_of 3) ≡ err assertion (area_of 3))
unfolding c_str
add_cases_example = add_cases {a = area_of 3} tight-IsValid (codes "xyz") (omega arith)

insert-IsValid_example :
    (IsContained (area_of 20) (codes "longer")
      → ((◌≡◌ {A = ℕ} 1 0) ⊎ ¬ IsLoose (area_of 20) 1)
      → IsValid (state_of (insert 1 (some (codes "longer")) (area_of 20))))
    × (◌≡◌ {A = ℕ} 1 0
        → 4 + length (c_str (codes "longer")) ≡ 24
        → ¬ IsValid (state_of (insert 1 (some (codes "longer")) (area_of 20))))
insert-IsValid_example = insert-IsValid (area_of 20) 1 (codes "longer") area-IsValid

insert_loses_example :
    (b : Area) × (insert 1 (some (codes "wxyz")) (area_of 3) ≡ err assertion b)
    × (read_text 1 b ≡ ok [] b)
unfolding c_string c_str
insert_loses_example =
    insert_loses (area_of 3) 1 (codes "ab") (codes "wxyz") tight-IsValid refl refl (omega arith)
      (omega arith) (omega arith)

abbrev pieces : Text
pieces = b'a' ∷ string_separator ∷ string_separator ∷ b'b' ∷ []

abbrev names : List Text
names = codes "a" ∷ [] ∷ codes "bc" ∷ []

get_vector-insert_vector_example :
    (b : Area) × (insert_vector 0 names (area_of 20) ≡ ok 4 b)
    × (get_vector 4 b ≡ ok (codes "a" ∷ codes "bc" ∷ []) b)
    × IsValid b
unfolding vector_stream
get_vector-insert_vector_example =
    get_vector-insert_vector (area_of 20) names area-IsValid refl (ground arith) (ground arith)
      (omega arith)

abbrev settings : StrMap
settings = (codes "a", codes "1") ∷ (codes "b", codes "2") ∷ []

get_map-insert_map_example :
    (b : Area) × (insert_map 0 settings (area_of 20) ≡ ok 4 b)
    × (get_map 4 b ≡ ok settings b)
    × IsValid b
unfolding map_stream
get_map-insert_map_example =
    get_map-insert_map (area_of 20) settings area-IsValid refl (ground arith) (ground arith)
      (omega arith)

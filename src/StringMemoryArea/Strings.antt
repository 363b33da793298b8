-- ===== src/StringMemoryArea/Strings.antt =====
-- `add`, `get_string` and `clear`: what is written is read back, and nothing else changes.
use okssystem.Prelude.{
  ℕ, zero, suc, ◌+◌, ◌-◌, ◌≤◌, ◌<◌, ◌^◌, ◌≡◌, ◌≢◌, take, refl, ap, sym, ◌∙◌, true, none, some, [],
  ◌∷◌, ◌++◌, append_assoc, arith, length, drop, length-append, get_elem?, Text, Lacks, ◌⊎◌, inl,
  inr, ok, err, assertion, state_of,
}
use native.Mathlib.Decide.{dec_lt}
use okssystem.StringMemoryArea.{Area, add, get_string, read_text, c_str, c_string, overwrite}
use okssystem.StringMemoryArea.Memory.{
  c_str_of_Lacks, c_string-append, length-overwrite, drop-overwrite, take-overwrite, c_string-take,
  c_string_before, get_elem?-drop, drop-take, get_elem?-overwrite_nul,
}

-- The area is as large as it says, offsets into it fit in `offset_t`, and a NUL stands at the end
-- of the last string.
pub record IsValid (a : Area) : Type 0 where
  pub sized : a.string_area_size ≡ length a.memory
  pub small : length a.memory < 2 ^ 32
  pub ended : get_elem? a.memory a.last_string ≡ some 0

-- The area after `add` of a string that fits.
abbrev pub added : Text → Area → Area
added s a = record a {
  memory = overwrite (a.last_string + 1) (s ++ 0 ∷ []) a.memory;
  last_string = a.last_string + 1 + length s;
}

get_elem?-lt : (m : Text) (n x : ℕ) → get_elem? m n ≡ some x → n < length m
get_elem?-lt [] n x h = absurd (ground arith)
get_elem?-lt (y ∷ m) zero x h = omega arith
get_elem?-lt (y ∷ m) (suc n) x h = omega (arith, get_elem?-lt m n x h)

pub last_string-lt : {a : Area} → IsValid a → a.last_string < length a.memory
last_string-lt {a} v = get_elem?-lt a.memory a.last_string 0 v.ended

length-terminated : (s : Text) → length (s ++ 0 ∷ []) ≡ length s + 1
length-terminated s = length-append s (0 ∷ [])

get_elem?_of_drop :
    (m : Text) (n : ℕ) (r : Text) (x : ℕ) → drop n m ≡ x ∷ r → get_elem? m n ≡ some x
get_elem?_of_drop [] zero r x h = cc
get_elem?_of_drop [] (suc n) r x h = cc
get_elem?_of_drop (y ∷ m) zero r x h = cc
get_elem?_of_drop (y ∷ m) (suc n) r x h = get_elem?_of_drop m n r x h

-- The area after `add` of a string whose terminator falls behind the end of the area.
abbrev pub overrun : Text → Area → Area
overrun s a = record a {
  memory = take (length a.memory) (overwrite (a.last_string + 1) (s ++ 0 ∷ []) a.memory);
  last_string = a.last_string + 1 + length s;
}

-- A string whose end is an `offset_t`, and whose terminator does not fall on the first byte behind
-- the area.
abbrev pub IsContained : Area → Text → Type 0
IsContained a s =
    (a.last_string + 1 + length (c_str s) < 2 ^ 32)
    × (a.last_string + 1 + length (c_str s) ≢ a.string_area_size)

module _ {a : Area} (v : IsValid a) (s : Text) where
  -- The three outcomes of `add` on a valid area, for a string whose end is an `offset_t`, by the
  -- space that the string and its terminator take. At the boundary the check passes, the
  -- terminator is written one byte behind the area, and `add` returns.
  pub add_cases :
      let end = a.last_string + 1 + length (c_str s) in
      end < 2 ^ 32
      → (end < a.string_area_size → add (some s) a ≡ ok (a.last_string + 1) (added (c_str s) a))
        × (end ≡ a.string_area_size → add (some s) a ≡ ok (a.last_string + 1) (overrun (c_str s) a))
        × (a.string_area_size < end → add (some s) a ≡ err assertion a)
  unfolding add
  add_cases h =
      (λ l. ground (arith, v.sized), λ l. ground (arith, v.sized), λ l. ground (arith, v.sized))

module _ {a : Area} (v : IsValid a) (s : Text)
    (fits : a.last_string + 1 + length s < length a.memory) where
  written : a.last_string + 1 + length (s ++ 0 ∷ []) ≤ length a.memory
  written = omega (arith, length-terminated s)

  pub read_added : Lacks 0 s → c_string (drop (a.last_string + 1) (added s a).memory) ≡ some s
  read_added h =
      ap c_string (drop-overwrite (a.last_string + 1) (s ++ 0 ∷ []) a.memory (omega arith))
      ∙ ap c_string (append_assoc s (0 ∷ []) _)
      ∙ c_string-append s _ h

  -- The strings that ended at or before the last one are untouched.
  pub added-keeps :
      (q : ℕ)
      → q ≤ a.last_string
      → c_string (drop q (added s a).memory) ≡ c_string (drop q a.memory)
  added-keeps q h =
      let (t, e, l) =
        c_string_before (drop q a.memory) (a.last_string - q)
          (get_elem?-drop a.memory q a.last_string h ∙ v.ended) in
      c_string-take (drop q a.memory) (drop q (added s a).memory) t (a.last_string + 1 - q)
        (sym (drop-take q (a.last_string + 1) a.memory)
          ∙ ap (drop q) (
              sym (
                take-overwrite (a.last_string + 1) (a.last_string + 1) (s ++ 0 ∷ []) a.memory
                  (omega arith) (omega arith)))
          ∙ drop-take q (a.last_string + 1) (added s a).memory)
        (omega arith) e
      ∙ sym e

  ended_added : get_elem? (added s a).memory (a.last_string + 1 + length s) ≡ some 0
  ended_added = get_elem?-overwrite_nul (a.last_string + 1) s a.memory (omega arith)

  pub added-IsValid : IsValid (added s a)
  added-IsValid = record {
    sized = v.sized ∙ sym (length-overwrite (a.last_string + 1) (s ++ 0 ∷ []) a.memory written);
    small =
        omega (arith, v.small, length-overwrite (a.last_string + 1) (s ++ 0 ∷ []) a.memory written);
    ended = ended_added;
  }

-- In a valid and readable area, a string without NULs that fits, with one byte to spare for its
-- terminator, is stored behind the last one and read back; the area stays valid, and every string
-- that started at or before the end of the last one reads as before.
pub read_text-add :
    (a : Area) (s : Text)
    → IsValid a
    → a.readable ≡ true
    → Lacks 0 s
    → a.last_string + 1 + length s < a.string_area_size
    → (b : Area) × (add (some s) a ≡ ok (a.last_string + 1) b)
      × (get_string (a.last_string + 1) b ≡ ok (some (a.last_string + 1)) b)
      × (read_text (a.last_string + 1) b ≡ ok s b)
      × IsValid b
      × ((q : ℕ) → q ≤ a.last_string → c_string (drop q b.memory) ≡ c_string (drop q a.memory))
unfolding get_string read_text
read_text-add a s v r h fits =
    let e : c_str s ≡ s = c_str_of_Lacks s h in
    let room : a.last_string + 1 + length s < length a.memory = omega (arith, v.sized) in
    (
      added s a,
      rw e at ((add_cases v s (rw e (omega (arith, v.small)))).0 (rw e fits)),
      ground (arith, v.sized),
      rw (read_added v s room h, read_text),
      added-IsValid v s room,
      added-keeps v s room,
    )

-- On a valid area `add` of a contained string either stores it and its terminator inside of the
-- area, or throws and leaves the area as it was.
pub add_outcome :
    {a : Area} (v : IsValid a) (s : Text)
    → IsContained a s
    → ((a.last_string + 1 + length (c_str s) < length a.memory)
        × (add (some s) a ≡ ok (a.last_string + 1) (added (c_str s) a)))
      ⊎ (¬ (a.last_string + 1 + length (c_str s) < length a.memory)
          × (add (some s) a ≡ err assertion a))
add_outcome {a} v s (small, apart) =
    elim (dec_lt (a.last_string + 1 + length (c_str s)) (length a.memory)) [
      | yes fits ↦ inl (fits, (add_cases v s small).0 (omega (arith, v.sized)))
      | no over ↦ inr (over, (add_cases v s small).2 (omega (arith, v.sized, apart)))
    ]

-- `add` of a contained string keeps the area valid, however it ends.
pub add-IsValid :
    (a : Area) (s : Text) → IsValid a → IsContained a s → IsValid (state_of (add (some s) a))
add-IsValid a s v inside = elim (add_outcome v s inside) [
  | inl (fits, e) ↦ rw e (added-IsValid v (c_str s) fits)
  | inr (over, e) ↦ rw e v
]

none_ne_some : {A : Type 0} {x : A} → ¬ (none ≡ some x)
none_ne_some e = cc

get_elem?-take_end : (m : Text) (n : ℕ) → get_elem? (take n m) n ≡ none
get_elem?-take_end [] zero = refl
get_elem?-take_end [] (suc n) = refl
get_elem?-take_end (x ∷ m) zero = refl
get_elem?-take_end (x ∷ m) (suc n) = get_elem?-take_end m n

-- Behind `add` of a string whose terminator falls on the first byte behind the area, the area is not
-- valid any more: no NUL stands in it at the end of the last string.
pub add_overruns :
    (a : Area) (s : Text)
    → IsValid a
    → a.last_string + 1 + length (c_str s) ≡ a.string_area_size
    → ¬ IsValid (state_of (add (some s) a))
add_overruns a s v at_end valid =
    let ended =
      rw ((add_cases v s (omega (arith, v.sized, v.small, at_end))).1 at_end) at valid.ended in
    let place : a.last_string + 1 + length (c_str s) ≡ length a.memory = at_end ∙ v.sized in
    let beyond =
      get_elem?-take_end (overwrite (a.last_string + 1) (c_str s ++ 0 ∷ []) a.memory)
        (length a.memory) in
    none_ne_some (sym beyond ∙ rw place at ended)

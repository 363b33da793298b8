-- ===== src/StringMemoryArea/Insert.antt =====
-- `insert`: in place if the new string is no longer than the old one, behind the last string if
-- not, and what is left when that does not fit.
use native.Mathlib.Decide.{dec_lt}
use okssystem.Prelude.{
  ℕ, ◌+◌, ◌≤◌, ◌<◌, ◌^◌, ◌≡◌, refl, ◌∙◌, true, none, some, [], ◌∷◌, arith, length, take, drop,
  length-append, Text, Lacks, inl, inr, Bool-cases, Option-cases, ok, err, assertion, state_of,
  ◌==◌, ◌⊎◌,
}
use okssystem.StringMemoryArea.{
  Area, add, clear, insert, insert_cleared, read_text, c_str, c_string, store, in_range,
}
use okssystem.StringMemoryArea.Memory.{c_str_of_Lacks}
use okssystem.StringMemoryArea.Strings.{
  IsValid, IsContained, add_cases, add-IsValid, add_overruns, read_text-add,
}
use okssystem.StringMemoryArea.Replace.{
  zeroed, replaced, clear_lem, zeroed-IsValid, replaced-IsValid, replaced_bound, read_replaced,
  take-replaced, drop-replaced, read_zeroed,
}

-- `insert` at an offset in range is the choice behind `clear`.
insert-cleared :
    (a : Area) (offset n : ℕ) (s : Text) (b : Area)
    → in_range offset a ≡ true
    → clear offset a ≡ ok n b
    → insert offset (some s) a ≡ insert_cleared offset s n b
insert-cleared a offset n s b h e = unfold insert in ground arith

module _ (a : Area) (offset : ℕ) (t s : Text) where
  pub insert-replaced :
      in_range offset a ≡ true
      → c_string (drop offset a.memory) ≡ some t
      → length (c_str s) ≤ length t
      → insert offset (some s) a ≡ ok offset (replaced offset (length t) (c_str s) a)
  unfolding insert_cleared store
  insert-replaced h old fits =
      insert-cleared a offset (length t) s (zeroed offset (length t) a) h (clear_lem a offset t old)
      ∙ ground
          (arith, replaced_bound a offset t old (c_str s) fits, length-append (c_str s) (0 ∷ []))

  pub insert-moved :
      in_range offset a ≡ true
      → c_string (drop offset a.memory) ≡ some t
      → length t < length (c_str s)
      → insert offset (some s) a ≡ add (some s) (zeroed offset (length t) a)
  unfolding insert_cleared
  insert-moved h old long =
      insert-cleared a offset (length t) s (zeroed offset (length t) a) h (clear_lem a offset t old)
      ∙ ground arith

-- In a valid area and at an offset in its range, a new string without NULs that is no longer than
-- the old one takes its place: the offset stays, the new string is read there, and all bytes before
-- the old string and behind its terminator keep their values.
pub read_text-insert :
    (a : Area) (offset : ℕ) (t s : Text)
    → IsValid a
    → in_range offset a ≡ true
    → c_string (drop offset a.memory) ≡ some t
    → Lacks 0 s
    → length s ≤ length t
    → (b : Area) × (insert offset (some s) a ≡ ok offset b)
      × (read_text offset b ≡ ok s b)
      × (b.last_string ≡ a.last_string)
      × (take offset b.memory ≡ take offset a.memory)
      × (drop (offset + length t + 1) b.memory ≡ drop (offset + length t + 1) a.memory)
      × IsValid b
unfolding read_text
read_text-insert a offset t s v h old l fits =
    let e : c_str s ≡ s = c_str_of_Lacks s l in
    (
      replaced offset (length t) s a,
      rw e at (insert-replaced a offset t s h old (rw e fits)),
      rw (read_replaced a offset t old s fits l, read_text) refl,
      refl,
      take-replaced a offset t old s fits,
      drop-replaced a offset t old s fits,
      replaced-IsValid a offset t old s fits v,
    )

-- In a valid and readable area, at an offset in its range that is not behind the last string: a
-- longer string without NULs moves behind the last one if it fits there: it is read at the new
-- offset, and the empty string at the old one.
pub read_text-insert_longer :
    (a : Area) (offset : ℕ) (t s : Text)
    → IsValid a
    → a.readable ≡ true
    → in_range offset a ≡ true
    → offset ≤ a.last_string
    → c_string (drop offset a.memory) ≡ some t
    → Lacks 0 s
    → length t < length s
    → a.last_string + 1 + length s < a.string_area_size
    → (b : Area) × (insert offset (some s) a ≡ ok (a.last_string + 1) b)
      × (read_text (a.last_string + 1) b ≡ ok s b)
      × (read_text offset b ≡ ok [] b)
      × IsValid b
unfolding read_text
read_text-insert_longer a offset t s v r h before old l long fits =
    let e : c_str s ≡ s = c_str_of_Lacks s l in
    let (b, done, _, read, valid, keeps) =
      read_text-add (zeroed offset (length t) a) s (zeroed-IsValid a offset t old v) r l fits in
    (
      b,
      insert-moved a offset t s h old (rw e long) ∙ done,
      read,
      rw (keeps offset before ∙ read_zeroed a offset t old, read_text) refl,
      valid,
    )

-- In a valid area, at an offset in its range: a longer string that does not fit behind the last one
-- either, and whose end is an `offset_t`, makes `insert` throw, and the old
-- string is lost: its offset reads as the empty string.
pub insert_loses :
    (a : Area) (offset : ℕ) (t s : Text)
    → IsValid a
    → in_range offset a ≡ true
    → c_string (drop offset a.memory) ≡ some t
    → length t < length (c_str s)
    → a.string_area_size < a.last_string + 1 + length (c_str s)
    → a.last_string + 1 + length (c_str s) < 2 ^ 32
    → (b : Area) × (insert offset (some s) a ≡ err assertion b) × (read_text offset b ≡ ok [] b)
unfolding read_text
insert_loses a offset t s v h old long over small = (
  zeroed offset (length t) a,
  insert-moved a offset t s h old long
      ∙ (add_cases (zeroed-IsValid a offset t old v) s small).2 over,
  rw (read_zeroed a offset t old, read_text) refl,
)

-- There is no string at an offset in range; the loop that clears it runs out of the area.
abbrev pub IsLoose : Area → ℕ → Type 0
IsLoose a offset = (in_range offset a ≡ true) × (c_string (drop offset a.memory) ≡ none)

-- `insert` of a contained string (`IsContained`), at an offset that is null, out of range or one of
-- a string, keeps a valid area valid, on all ways out. Behind a string added at the null offset whose
-- terminator falls on the first byte behind the area, the area is not valid any more.
pub insert-IsValid :
    (a : Area) (offset : ℕ) (s : Text)
    → IsValid a
    → (IsContained a s
        → ((offset ≡ 0) ⊎ ¬ IsLoose a offset)
        → IsValid (state_of (insert offset (some s) a)))
      × (offset ≡ 0
          → a.last_string + 1 + length (c_str s) ≡ a.string_area_size
          → ¬ IsValid (state_of (insert offset (some s) a)))
unfolding insert
insert-IsValid a offset s v = (
  λ inside place. elim (Bool-cases (offset == 0)) [
    | inl zero_offset ↦ rw (zero_offset, insert) (add-IsValid a s v inside)
    | inr other ↦ elim (Bool-cases (in_range offset a)) [
      | inr failed ↦ ground arith
      | inl h ↦ elim (Option-cases (c_string (drop offset a.memory))) [
        | inl e ↦ elim place [
          | inl zero_offset ↦ absurd (ground arith)
          | inr string ↦ absurd (string (h, e))
        ]
        | inr (t, old) ↦ elim (dec_lt (length t) (length (c_str s))) [
          | yes long ↦
              rw (insert-moved a offset t s h old long) (
                add-IsValid (zeroed offset (length t) a) s (zeroed-IsValid a offset t old v) inside)
          | no short ↦
              rw (insert-replaced a offset t s h old (omega arith))
                (replaced-IsValid a offset t old (c_str s) (omega arith) v)
        ]
      ]
    ]
  ],
  λ zero_offset at_end. rw (zero_offset, insert) (add_overruns a s v at_end),
)

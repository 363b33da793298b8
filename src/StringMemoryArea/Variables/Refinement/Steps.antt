-- ===== src/StringMemoryArea/Variables/Refinement/Steps.antt =====
-- One assignment to a variable in the area, against the abstract variables.
use mathlib.Core.Option
use std.Path.{fun_ext}
use native.Mathlib.Decide.{dec_lt}
use okssystem.Prelude.{
  ℕ, ◌+◌, ◌≤◌, ◌<◌, ◌≡◌, ◌⊎◌, inl, inr, refl, ap, sym, Bool, true, false, Bool-cases, ◌==◌, Option,
  none, some, Option-cases, [], arith, length, drop, Text,
}
use okssystem.StringMemoryArea.{Area, insert_ref, insert, add, c_str, c_string, in_range}
use okssystem.StringMemoryArea.Memory.{c_str-Lacks}
use okssystem.StringMemoryArea.Strings.{last_string-lt, add_outcome, IsContained}
use okssystem.StringMemoryArea.Replace.{
  zeroed, replaced, read_zeroed, take-zeroed, drop-zeroed, zeroed-IsValid, replaced-IsValid,
  read_replaced, take-replaced, drop-replaced,
}
use okssystem.StringMemoryArea.Insert.{insert-replaced, insert-moved}
use okssystem.StringMemoryArea.Variables.{set_at, Cells, assigned, assign, specified, Implements}
use okssystem.StringMemoryArea.Variables.Refinement.{
  inside-Implements, added-Implements, set_at_same,
}

set_at_held : {A : Type 0} (i : ℕ) (x : A) (f : ℕ → A) → f i ≡ x → set_at i x f ≡ f
set_at_held i x f h = fun_ext (λ j. elim (Bool-cases (j == i)) [
  | inl e ↦ let same : j ≡ i = ground (arith, e) in rw (e, same) (sym h)
  | inr e ↦ rw e refl
])

set_at_twice : {A : Type 0} (i : ℕ) (x y : A) (f : ℕ → A) → set_at i x (set_at i y f) ≡ set_at i x f
set_at_twice i x y f =
    fun_ext (λ j. elim (Bool-cases (j == i)) [ inl e ↦ rw e refl | inr e ↦ rw e refl ])

-- There is room for a text in the variable itself, or behind the last string.
abbrev pub HasRoom : (ℕ → Option Text) → ℕ → Text → Area → Type 0
HasRoom texts i s a =
    ((t : Text) × (texts i ≡ some t) × (length (c_str s) ≤ length t))
    ⊎ (a.last_string + 1 + length (c_str s) < a.string_area_size)

-- What the end of an assignment is to be.
Meets : (ℕ → Option Text) → ℕ → Text → Type 0 → Bool × Cells → Type 0
Meets texts i s room (accepted, c) =
    Implements (specified i s accepted texts) c.offsets c.area × (room → accepted ≡ true)

unchanged : (o : Option Text) → (o ≡ none) ⊎ (o ≡ some []) → o ≡ Option.map (λ t. []) o
unchanged none h = refl
unchanged (some t) h = elim h [ inl e ↦ absurd (ground (arith, e)) | inr e ↦ e ]

-- A text that is cleared before.
specified_cleared :
    (texts : ℕ → Option Text) (i : ℕ) (s t : Text) (accepted : Bool)
    → texts i ≡ some t
    → specified i s accepted (set_at i (some []) texts) ≡ specified i s accepted texts
specified_cleared texts i s t true held = set_at_twice i (some (c_str s)) (some []) texts
specified_cleared texts i s t false held =
    rw (set_at_same i (some []) texts, held) (set_at_twice i (some []) (some []) texts)

module _ {texts : ℕ → Option Text} (c : Cells) (i : ℕ) (s : Text) where
  added-Meets :
      (a : Area) (room : Type 0)
      → Implements texts c.offsets a
      → (texts i ≡ none) ⊎ (texts i ≡ some [])
      → IsContained a s
      → (room → a.last_string + 1 + length (c_str s) < length a.memory)
      → Meets texts i s room (assigned i c (add (some s) a))
  unfolding Meets
  added-Meets a room im' empty inside fits = elim (add_outcome im'.valid s inside) [
    | inl (enough, e) ↦ rw e (added-Implements im' i (c_str s) (c_str-Lacks s) enough, λ h. refl)
    | inr (over, e) ↦ rw e (
      rw (set_at_held i (Option.map (λ t. []) (texts i)) texts (unchanged (texts i) empty)) im',
      λ h. absurd (over (fits h)),
    )
  ]

assign-clear :
    (texts : ℕ → Option Text) (i : ℕ) (s t : Text) (room : Type 0) (r : Bool × Cells)
    → texts i ≡ some t
    → Meets (set_at i (some []) texts) i s room r
    → Meets texts i s room r
unfolding Meets
assign-clear texts i s t room (accepted, c) held (im, h) =
    (rw (← specified_cleared texts i s t accepted held) im, h)

assign_empty :
    (c : Cells) (i : ℕ) (s : Text)
    → c.offsets i ≡ 0
    → assign i s c ≡ assigned i c (add (some s) c.area)
unfolding assign insert_ref insert
assign_empty c i s h = ground (arith, h)

assign_moved :
    (c : Cells) (i : ℕ) (s t : Text)
    → in_range (c.offsets i) c.area ≡ true
    → c_string (drop (c.offsets i) c.area.memory) ≡ some t
    → length t < length (c_str s)
    → assign i s c ≡ assigned i c (add (some s) (zeroed (c.offsets i) (length t) c.area))
unfolding assign insert_ref
assign_moved c i s t h old long = rw (insert-moved c.area (c.offsets i) t s h old long) refl

assign-replaced :
    (c : Cells) (i : ℕ) (s t : Text)
    → in_range (c.offsets i) c.area ≡ true
    → c_string (drop (c.offsets i) c.area.memory) ≡ some t
    → length (c_str s) ≤ length t
    → assign i s c ≡ (true, record c { area = replaced (c.offsets i) (length t) (c_str s) c.area })
unfolding assign insert_ref
assign-replaced c i s t h old fits = rw (insert-replaced c.area (c.offsets i) t s h old fits) (
    ap
      (λ (f : ℕ → ℕ).
        (true, record { offsets = f; area = replaced (c.offsets i) (length t) (c_str s) c.area }))
      (set_at_held i (c.offsets i) c.offsets refl))

room_behind :
    (texts : ℕ → Option Text) (i : ℕ) (s : Text) (a : Area)
    → ((t : Text) → texts i ≡ some t → length t < length (c_str s))
    → a.string_area_size ≡ length a.memory
    → HasRoom texts i s a
    → a.last_string + 1 + length (c_str s) < length a.memory
room_behind texts i s a long sized room = elim room [
  | inl (t, held, fits) ↦ absurd (omega (arith, long t held))
  | inr enough ↦ omega arith
]

same_text : (o : Option Text) (t u : Text) → o ≡ some t → o ≡ some u → t ≡ u
same_text o t u h k = ground (arith, h, k)

module _ (texts : ℕ → Option Text) (c : Cells) (i : ℕ) (s t : Text)
    (im : Implements texts c.offsets c.area) (inside : IsContained c.area s)
    (held : texts i ≡ some t) where
  held_range : in_range (c.offsets i) c.area ≡ true
  held_range =
      let (low, high, _) = im.stored i t held in
      ground (arith, low, high, im.valid.sized, last_string-lt im.valid)

  assign_long :
      length t < length (c_str s) → Meets texts i s (HasRoom texts i s c.area) (assign i s c)
  unfolding Meets
  assign_long long =
      let old = (im.stored i t held).2 in
      let o = c.offsets i in
      let a' = zeroed o (length t) c.area in
      let valid = zeroed-IsValid c.area o t old im.valid in
      let cleared =
        inside-Implements im i t held a' [] valid refl refl (omega arith)
          (read_zeroed c.area o t old) (take-zeroed c.area o t old) (drop-zeroed c.area o t old) in
      rw (assign_moved c i s t held_range old long) (
        assign-clear texts i s t (HasRoom texts i s c.area) _ held (
          added-Meets c i s a' (HasRoom texts i s c.area) cleared
            (inr (set_at_same i (some []) texts)) inside
            (λ room.
              room_behind texts i s a' (λ u e. rw (← same_text (texts i) t u held e) long)
                valid.sized room)))

  assign_short :
      length (c_str s) ≤ length t → Meets texts i s (HasRoom texts i s c.area) (assign i s c)
  unfolding Meets
  assign_short fits =
      let old = (im.stored i t held).2 in
      let o = c.offsets i in
      rw (assign-replaced c i s t held_range old fits) (
        inside-Implements im i t held (replaced o (length t) (c_str s) c.area) (c_str s)
            (replaced-IsValid c.area o t old (c_str s) fits im.valid) refl refl fits
            (read_replaced c.area o t old (c_str s) fits (c_str-Lacks s))
            (take-replaced c.area o t old (c_str s) fits)
            (drop-replaced c.area o t old (c_str s) fits),
        λ room. refl,
      )

-- If the offsets and a valid, readable area hold the texts (`Implements`), one assignment of a
-- contained text (`IsContained`) does what the abstract variables do: if it returns, the variable
-- holds the text up to its first NUL, and if it throws, a text that was there before is now empty;
-- the other variables are as they were. It returns if there is room in the variable or behind the
-- last string.
pub assign-Implements :
    (texts : ℕ → Option Text) (c : Cells) (i : ℕ) (s : Text)
    → Implements texts c.offsets c.area
    → IsContained c.area s
    → Implements
        (specified i s (assign i s c).0 texts)
        (assign i s c).1.offsets
        (assign i s c).1.area
      × (HasRoom texts i s c.area → (assign i s c).0 ≡ true)
unfolding Meets
assign-Implements texts c i s im inside = elim (Option-cases (texts i)) [
  | inl empty ↦ rw (assign_empty c i s (im.unset i empty)) (
      added-Meets c i s c.area (HasRoom texts i s c.area) im (inl empty) inside
        (room_behind texts i s c.area (λ t e. cc) im.valid.sized))
  | inr (t, held) ↦ elim (dec_lt (length t) (length (c_str s))) [
    | yes long ↦ assign_long texts c i s t im inside held long
    | no short ↦ assign_short texts c i s t im inside held (omega arith)
  ]
]

-- ===== src/StringMemoryArea/Variables.antt =====
-- String variables that live in an area: the caller keeps an offset for each variable and assigns to
-- it by `insert(offset_t*, const char*)`.
pub mod Refinement
pub mod Runs
use mathlib.Core.Option
use okssystem.Prelude.{
  ℕ, zero, suc, ◌+◌, ◌-◌, ◌≤◌, ◌<◌, ◌≡◌, ◌≢◌, ◌⊎◌, inl, inr, refl, ap, sym, ◌∙◌, Bool, true, false,
  Bool-cases, if◌then◌else◌, ◌==◌, Option, none, some, List, [], ◌∷◌, ◌++◌, arith, length, take,
  drop, Text, Lacks, Out, ok, err,
}
use okssystem.StringMemoryArea.{Area, insert_ref, get_string, read_text, c_str, c_string}
use okssystem.StringMemoryArea.Memory.{c_str-Lacks, c_string-take, c_string_before}
use okssystem.StringMemoryArea.Strings.{
  IsValid, IsContained, added, added-keeps, added-IsValid, read_added, last_string-lt,
}

-- A variable is a number.
abbrev pub set_at : {A : Type 0} → ℕ → A → (ℕ → A) → ℕ → A
set_at i x f j = if j == i then x else f j

-- The offsets that the caller keeps, and the area.
pub record Cells : Type 0 where
  pub offsets : ℕ → ℕ
  pub area : Area

abbrev pub assigned : ℕ → Cells → Out Area ℕ → Bool × Cells
assigned i c (ok n b) = (true, record { offsets = set_at i n c.offsets; area = b })
assigned i c (err e b) = (false, record { offsets = c.offsets; area = b })

-- An assignment, and whether it returned.
unfoldable pub assign : ℕ → Text → Cells → Bool × Cells
unfolding insert_ref
assign i s c = assigned i c (insert_ref (some (c.offsets i)) (some s) c.area)

abbrev pub read_at : Area → Option ℕ → Option Text
unfolding read_text
read_at a none = none
read_at a (some p) = elim (read_text p a) [ ok t b ↦ some t | err e b ↦ none ]

-- What a variable is read as: `none` for a null pointer or an issue.
unfoldable pub read_variable : ℕ → Cells → Option Text
unfolding get_string read_text
read_variable i c = elim (get_string (c.offsets i) c.area) [ ok p b ↦ read_at b p | err e b ↦ none ]

-- The abstract variables. An assignment that fails leaves an empty text where there was one.
abbrev pub specified : ℕ → Text → Bool → (ℕ → Option Text) → ℕ → Option Text
specified i s true texts = set_at i (some (c_str s)) texts
specified i s false texts = set_at i (Option.map (λ t. []) (texts i)) texts

abbrev pub Assignment : Type 0
Assignment = ℕ × Text

-- A run of assignments, with what each has answered; the caller goes on behind one that throws.
abbrev pub run : List Assignment → Cells → List Bool × Cells
run [] c = ([], c)
run ((i, s) ∷ assignments) c =
    let (accepted, c') = assign i s c in
    let (answers, c2) = run assignments c' in (accepted ∷ answers, c2)

-- Every text of the run is contained in the area that it comes to.
abbrev pub AllContained : List Assignment → Cells → Type 0
AllContained [] c = Unit
AllContained ((i, s) ∷ assignments) c =
    IsContained c.area s × AllContained assignments (assign i s c).1

-- The abstract variables behind a run, by the answers.
abbrev pub specified_run : List Assignment → List Bool → (ℕ → Option Text) → ℕ → Option Text
specified_run ((i, s) ∷ assignments) (accepted ∷ answers) texts =
    specified_run assignments answers (specified i s accepted texts)
specified_run assignments answers texts = texts

-- The offsets and the area hold the texts, each in its own part of the area.
pub record Implements (texts : ℕ → Option Text) (offsets : ℕ → ℕ) (a : Area) : Type 0 where
  pub valid : IsValid a
  pub readable : a.readable ≡ true
  pub unset : (i : ℕ) → texts i ≡ none → offsets i ≡ 0
  pub stored :
      (i : ℕ) (t : Text)
      → texts i ≡ some t
      → (1 ≤ offsets i)
        × (offsets i + length t ≤ a.last_string)
        × (c_string (drop (offsets i) a.memory) ≡ some t)
  pub apart :
      (i j : ℕ) (t u : Text)
      → i ≢ j
      → texts i ≡ some t
      → texts j ≡ some u
      → (offsets i + length t < offsets j) ⊎ (offsets j + length u < offsets i)

-- ===== src/StringMemoryArea/Variables/Refinement.antt =====
-- What a write inside of one variable, and one behind the last string, mean for the variables.
pub mod Steps
use okssystem.Prelude.{
  ℕ, zero, suc, ◌+◌, ◌-◌, ◌≤◌, ◌<◌, ◌≡◌, ◌≢◌, ◌⊎◌, inl, inr, refl, ap, sym, ◌∙◌, Bool, true, false,
  Bool-cases, if◌then◌else◌, ◌==◌, Option, none, some, Option-cases, List, [], ◌∷◌, ◌++◌, arith,
  length, take, drop, drop-drop, Text, Lacks, Out, ok, err,
}
use mathlib.Core.Option
use okssystem.StringMemoryArea.{
  Area, insert_ref, insert, add, get_string, read_text, c_str, c_string, in_range,
}
use okssystem.StringMemoryArea.Memory.{c_str-Lacks, c_string-take, c_string_before, drop-take}
use okssystem.StringMemoryArea.Strings.{
  IsValid, added, added-keeps, added-IsValid, read_added, last_string-lt,
}
use okssystem.StringMemoryArea.Variables.{
  set_at, Cells, assigned, assign, read_variable, specified, Implements,
}

-- A string that ends before a place where nothing has changed up to it.
c_string-before :
    (m m' : Text) (o k : ℕ) (t : Text)
    → take k m ≡ take k m'
    → o + length t < k
    → c_string (drop o m) ≡ some t
    → c_string (drop o m') ≡ some t
c_string-before m m' o k t same inside h =
    c_string-take (drop o m) (drop o m') t (k - o)
      (sym (drop-take o k m) ∙ ap (drop o) same ∙ drop-take o k m') (omega arith) h

-- A string behind a place from which on nothing has changed.
drop-behind : (m m' : Text) (o k : ℕ) → drop k m ≡ drop k m' → k ≤ o → drop o m ≡ drop o m'
drop-behind m m' o k same inside =
    let e : o ≡ k + (o - k) = omega arith in
    ap (λ j. drop j m) e
    ∙ sym (drop-drop (o - k) k m)
    ∙ ap (drop (o - k)) same
    ∙ drop-drop (o - k) k m'
    ∙ ap (λ j. drop j m') (sym e)

pub set_at_same : {A : Type 0} (i : ℕ) (x : A) (f : ℕ → A) → set_at i x f i ≡ x
set_at_same i x f = let e : (i == i) ≡ true = ground arith in rw e refl

pub set_at_other : {A : Type 0} (i j : ℕ) (x : A) (f : ℕ → A) → j ≢ i → set_at i x f j ≡ f j
set_at_other i j x f h = let e : (j == i) ≡ false = ground arith in rw e refl

-- What an updated variable holds.
set_at-eq-some :
    (i j : ℕ) (s u : Text) (texts : ℕ → Option Text)
    → set_at i (some s) texts j ≡ some u
    → ((j ≡ i) × (s ≡ u)) ⊎ ((j ≢ i) × (texts j ≡ some u))
set_at-eq-some i j s u texts h = elim (Bool-cases (j == i)) [
  | inl e ↦ inl (ground (arith, e), ground (arith, e, h))
  | inr e ↦ inr (ground (arith, e), ground (arith, e, h))
]

Stored : (ℕ → ℕ) → Area → ℕ → Text → Type 0
Stored offsets a i t =
    (1 ≤ offsets i)
    × (offsets i + length t ≤ a.last_string)
    × (c_string (drop (offsets i) a.memory) ≡ some t)

module _ {texts : ℕ → Option Text} {offsets : ℕ → ℕ} {a : Area} (im : Implements texts offsets a)
    (i : ℕ) (t : Text) (held : texts i ≡ some t) where
  -- A write of a shorter text inside of one variable.
  pub inside-Implements :
      (b : Area) (s : Text)
      → IsValid b
      → b.readable ≡ a.readable
      → b.last_string ≡ a.last_string
      → length s ≤ length t
      → c_string (drop (offsets i) b.memory) ≡ some s
      → take (offsets i) b.memory ≡ take (offsets i) a.memory
      → drop (offsets i + length t + 1) b.memory ≡ drop (offsets i + length t + 1) a.memory
      → Implements (set_at i (some s) texts) offsets b
  unfolding Stored
  inside-Implements b s v r last fits read before behind = record {
    valid = v;
    readable = r ∙ im.readable;
    unset = λ j h. ground (arith, im.unset j);
    stored = λ j u h. elim (set_at-eq-some i j s u texts h) [
      | inl (e, same) ↦
          rw (e, ← same) (let (low, high, _) = im.stored i t held in (low, omega arith, read))
      | inr (other, old) ↦
          let (low, high, reads) = im.stored j u old in
          (
            low,
            omega arith,
            elim (im.apart i j t u (λ e. other (sym e)) held old) [
              | inl after ↦
                  ap c_string (
                    drop-behind b.memory a.memory (offsets j) (offsets i + length t + 1) behind
                      (omega arith))
                  ∙ reads
              | inr ahead ↦
                  c_string-before a.memory b.memory (offsets j) (offsets i) u (sym before) ahead
                    reads
            ],
          )
    ];
    apart = λ j k u w differ hj hk. elim (set_at-eq-some i j s u texts hj) [
      | inl (ej, sj) ↦ elim (set_at-eq-some i k s w texts hk) [
        | inl (ek, sk) ↦ absurd (differ (ej ∙ sym ek))
        | inr (other, old) ↦
            rw (ej, ← sj) (ground (arith, fits, im.apart i k t w (λ e. other (sym e)) held old))
      ]
      | inr (other, old) ↦ elim (set_at-eq-some i k s w texts hk) [
        | inl (ek, sk) ↦
            rw (ek, ← sk) (ground (arith, fits, im.apart i j t u (λ e. other (sym e)) held old))
        | inr (other', old') ↦ im.apart j k u w differ old old'
      ]
    ];
  }

module _ {texts : ℕ → Option Text} {offsets : ℕ → ℕ} {a : Area}
    (im : Implements texts offsets a) where
  -- A string behind the last one, for any variable.
  pub added-Implements :
      (i : ℕ) (s : Text)
      → Lacks 0 s
      → a.last_string + 1 + length s < length a.memory
      → Implements (set_at i (some s) texts) (set_at i (a.last_string + 1) offsets) (added s a)
  added-Implements i s lacks fits = record {
    valid = added-IsValid im.valid s fits;
    readable = im.readable;
    unset = λ j h. ground (arith, im.unset j);
    stored = λ j u h. elim (set_at-eq-some i j s u texts h) [
      | inl (e, same) ↦
          rw (e, set_at_same i (a.last_string + 1) offsets, ← same)
            (omega arith, omega arith, read_added im.valid s fits lacks)
      | inr (other, old) ↦
          let (low, high, reads) = im.stored j u old in
          rw (set_at_other i j (a.last_string + 1) offsets other)
            (low, omega arith, added-keeps im.valid s fits (offsets j) (omega arith) ∙ reads)
    ];
    apart = λ j k u w differ hj hk. elim (set_at-eq-some i j s u texts hj) [
      | inl (ej, sj) ↦ elim (set_at-eq-some i k s w texts hk) [
        | inl (ek, sk) ↦ absurd (differ (ej ∙ sym ek))
        | inr (other, old) ↦
            rw
              (
                ej,
                set_at_same i (a.last_string + 1) offsets,
                set_at_other i k (a.last_string + 1) offsets other,
              )
              (inr (omega (arith, (im.stored k w old).1)))
      ]
      | inr (other, old) ↦ elim (set_at-eq-some i k s w texts hk) [
        | inl (ek, sk) ↦
            rw
              (
                ek,
                set_at_same i (a.last_string + 1) offsets,
                set_at_other i j (a.last_string + 1) offsets other,
              )
              (inl (omega (arith, (im.stored j u old).1)))
        | inr (other', old') ↦
            rw
              (
                set_at_other i j (a.last_string + 1) offsets other,
                set_at_other i k (a.last_string + 1) offsets other',
              )
              (im.apart j k u w differ old old')
      ]
    ];
  }

-- ===== src/Prelude/Texts.antt =====
-- Texts as lists of bytes, and the members of `std::string` that the sources call: `find`,
-- `rfind` and `substr`. `std::string::npos` is `none`.
use Prim.Native.Nat.{ℕ, zero, suc, ◌+◌, ◌<◌}
use Prim.Native.Char.{code}
use Prim.Native.String.{String}
use mathlib.Core.Path.{◌≡◌, refl}
use mathlib.Core.Logic.{◌≢◌, inl, inr}
use mathlib.Core.Bool.{Bool, true, false, ◌&&◌}
use mathlib.Core.Option
use mathlib.Core.Option.{Option, none, some}
use mathlib.Core.List.{List, [], ◌∷◌, ◌++◌}
use native.Mathlib.Omega.{arith}
use okssystem.Prelude.Tests.{◌==◌, Option-cases, if◌then◌else◌}
use okssystem.Prelude.Lists.{length, take, drop, All}

abbrev pub Text : Type 0
Text = List ℕ

-- The bytes of a literal.
abbrev pub codes : String → Text
codes String.[] = []
codes (String.◌∷◌ c s) = code c ∷ codes s

-- `a == b` on strings.
abbrev pub text_eq : Text → Text → Bool
text_eq [] [] = true
text_eq [] (y ∷ ys) = false
text_eq (x ∷ xs) [] = false
text_eq (x ∷ xs) (y ∷ ys) = x == y && text_eq xs ys

abbrev pub is_empty : Text → Bool
is_empty [] = true
is_empty (x ∷ xs) = false

-- The position of the first byte `c`.
unfoldable pub find : ℕ → Text → Option ℕ
find c [] = none
find c (x ∷ s) = if x == c then some 0 else Option.map suc (find c s)

-- `s.find(c, p)`.
unfoldable pub find_from : ℕ → Text → ℕ → Option ℕ
find_from c s p = Option.map (λ i. p + i) (find c (drop p s))

abbrev last_of : Bool → Option ℕ → Option ℕ
last_of here (some i) = some (suc i)
last_of true none = some 0
last_of false none = none

-- The position of the last byte `c`.
unfoldable pub rfind : ℕ → Text → Option ℕ
rfind c [] = none
rfind c (x ∷ s) = last_of (x == c) (rfind c s)

-- `s.substr(p, n)` for `p` at most the length of `s`.
abbrev pub substr : Text → ℕ → ℕ → Text
substr s p n = take n (drop p s)

-- No byte of the text is `c`.
abbrev pub Lacks : ℕ → Text → Type 0
Lacks c = All (λ x. x ≢ c)

pub text_eq-eq : (a b : Text) → text_eq a b ≡ true → a ≡ b
text_eq-eq [] [] h = refl
text_eq-eq [] (y ∷ ys) h = ground arith
text_eq-eq (x ∷ xs) [] h = ground arith
text_eq-eq (x ∷ xs) (y ∷ ys) h = ground (arith, text_eq-eq xs ys)

pub text_eq_refl : (a : Text) → text_eq a a ≡ true
text_eq_refl [] = refl
text_eq_refl (x ∷ xs) = ground (arith, text_eq_refl xs)

-- Where the byte is found: the text is what stands before it, it, and what stands behind it.
pub find-eq-some :
    (c : ℕ) (s : Text) (i : ℕ)
    → find c s ≡ some i
    → (s ≡ take i s ++ c ∷ drop (suc i) s) × Lacks c (take i s) × (i < length s)
unfolding find
find-eq-some c [] i h = ground arith
find-eq-some c (x ∷ s) zero h = ground arith
find-eq-some c (x ∷ s) (suc i) h = ground (arith, find-eq-some c s i)

pub find-eq-none : (c : ℕ) (s : Text) → find c s ≡ none → Lacks c s
unfolding find
find-eq-none c [] h = tt
find-eq-none c (x ∷ s) h = ground (arith, find-eq-none c s)

pub find_of_Lacks : (c : ℕ) (s : Text) → Lacks c s → find c s ≡ none
unfolding find
find_of_Lacks c [] h = refl
find_of_Lacks c (x ∷ s) (hx, hs) = ground (arith, find_of_Lacks c s hs)

pub find-append : (c : ℕ) (s t : Text) → Lacks c s → find c (s ++ c ∷ t) ≡ some (length s)
unfolding find
find-append c [] t h = ground arith
find-append c (x ∷ s) t (hx, hs) = ground (arith, find-append c s t hs)

pub rfind-eq-none : (c : ℕ) (s : Text) → rfind c s ≡ none → Lacks c s
unfolding rfind
rfind-eq-none c [] h = tt
rfind-eq-none c (x ∷ s) h = elim (Option-cases (rfind c s)) [
  | inl e ↦ ground (arith, rfind-eq-none c s e)
  | inr (i, e) ↦ ground arith
]

-- The last occurrence: no such byte stands behind it.
pub rfind-eq-some :
    (c : ℕ) (s : Text) (i : ℕ)
    → rfind c s ≡ some i
    → (s ≡ take i s ++ c ∷ drop (suc i) s) × Lacks c (drop (suc i) s) × (i < length s)
unfolding rfind
rfind-eq-some c [] i h = ground arith
rfind-eq-some c (x ∷ s) zero h = elim (Option-cases (rfind c s)) [
  | inl e ↦ ground (arith, rfind-eq-none c s e)
  | inr (i, e) ↦ ground arith
]
rfind-eq-some c (x ∷ s) (suc i) h = ground (arith, rfind-eq-some c s i)

rfind_of_Lacks : (c : ℕ) (s : Text) → Lacks c s → rfind c s ≡ none
unfolding rfind
rfind_of_Lacks c [] h = refl
rfind_of_Lacks c (x ∷ s) (hx, hs) = ground (arith, rfind_of_Lacks c s hs)

pub rfind-append : (c : ℕ) (p s : Text) → Lacks c s → rfind c (p ++ (c ∷ s)) ≡ some (length p)
unfolding rfind
rfind-append c [] s h = ground (arith, rfind_of_Lacks c s h)
rfind-append c (x ∷ p) s h = ground (arith, rfind-append c p s h)

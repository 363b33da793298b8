-- ===== src/Prelude/Fields.antt =====
-- The parts of a text between separators: the common specification of the loops that cut a text
-- (`Path::parse_path_list`, `StringMemoryArea::get_vector` and `get_map`).
use Prim.Native.Nat.{ℕ, suc}
use mathlib.Core.Path.{◌≡◌, refl, ap, ◌∙◌}
use mathlib.Core.Logic.{◌≢◌}
use mathlib.Core.Option.{some, none}
use mathlib.Core.List.{List, [], ◌∷◌, ◌++◌}
use native.Mathlib.Omega.{arith}
use okssystem.Prelude.Tests.{◌==◌, if◌then◌else◌}
use okssystem.Prelude.Lists.{take, drop, All, All-append}
use okssystem.Prelude.Texts.{Text, find, find-eq-none, find-eq-some, Lacks}

abbrev put_first : ℕ → List Text → List Text
put_first x [] = (x ∷ []) ∷ []
put_first x (p ∷ ps) = (x ∷ p) ∷ ps

-- The parts, empty ones included; there is always one.
pub fields : ℕ → Text → List Text
fields c [] = [] ∷ []
fields c (x ∷ s) = if x == c then [] ∷ fields c s else put_first x (fields c s)

abbrev pub nonempty : List Text → List Text
nonempty [] = []
nonempty ([] ∷ ps) = nonempty ps
nonempty ((x ∷ p) ∷ ps) = (x ∷ p) ∷ nonempty ps

-- The parts that are not empty.
pub tokens : ℕ → Text → List Text
tokens c s = nonempty (fields c s)

pub tokens-nonempty : (c : ℕ) (s : Text) → tokens c s ≡ nonempty (fields c s)
unfolding tokens
tokens-nonempty c s = refl

-- The parts with the separator between them.
unfoldable pub join : ℕ → List Text → Text
join c [] = []
join c (p ∷ []) = p
join c (p ∷ q ∷ ps) = p ++ (c ∷ join c (q ∷ ps))

pub fields-nil : (c : ℕ) → fields c [] ≡ [] ∷ []
unfolding fields
fields-nil c = refl

pub fields_of_Lacks : (c : ℕ) (s : Text) → Lacks c s → fields c s ≡ s ∷ []
unfolding fields
fields_of_Lacks c [] h = refl
fields_of_Lacks c (x ∷ s) (hx, hs) = ground (arith, fields_of_Lacks c s hs)

pub fields-append : (c : ℕ) (p s : Text) → Lacks c p → fields c (p ++ (c ∷ s)) ≡ p ∷ fields c s
unfolding fields
fields-append c [] s h = ground arith
fields-append c (x ∷ p) s (hx, hp) = ground (arith, fields-append c p s hp)

-- Joining undoes the cut if no part holds the separator.
pub fields-join :
    (c : ℕ) (p : Text) (ps : List Text)
    → All (Lacks c) (p ∷ ps)
    → fields c (join c (p ∷ ps)) ≡ p ∷ ps
unfolding join
fields-join c p [] (hp, h) = fields_of_Lacks c p hp
fields-join c p (q ∷ ps) (hp, h) =
    ground (arith, fields-append c p (join c (q ∷ ps)) hp, fields-join c q ps h)

pub tokens-join : (c : ℕ) (ps : List Text) → All (Lacks c) ps → tokens c (join c ps) ≡ nonempty ps
unfolding tokens
tokens-join c [] h = unfold fields join in refl
tokens-join c (p ∷ ps) h = ap nonempty (fields-join c p ps h)

pub nonempty_of_All : (ps : List Text) → All (λ p. p ≢ []) ps → nonempty ps ≡ ps
nonempty_of_All [] h = refl
nonempty_of_All ([] ∷ ps) (hp, h) = absurd (hp refl)
nonempty_of_All ((x ∷ p) ∷ ps) (hp, h) = ap (λ r. (x ∷ p) ∷ r) (nonempty_of_All ps h)

-- One round of a loop that looks for the separator.
pub fields_step :
    (c : ℕ) (s : Text) (i : ℕ)
    → find c s ≡ some i
    → fields c s ≡ take i s ∷ fields c (drop (suc i) s)
fields_step c s i h =
    let (e, lacks, _) = find-eq-some c s i h in
    ap (fields c) e ∙ fields-append c (take i s) (drop (suc i) s) lacks

pub fields_last : (c : ℕ) (s : Text) → find c s ≡ none → fields c s ≡ s ∷ []
fields_last c s h = fields_of_Lacks c s (find-eq-none c s h)

-- Another byte that no part holds does not stand in the joined text.
pub join-Lacks : (c d : ℕ) (ps : List Text) → c ≢ d → All (Lacks d) ps → Lacks d (join c ps)
unfolding join
join-Lacks c d [] ne h = tt
join-Lacks c d (p ∷ []) ne (hp, h) = hp
join-Lacks c d (p ∷ q ∷ ps) ne (hp, h) =
    All-append (λ x. x ≢ d) p (c ∷ join c (q ∷ ps)) hp (ne, join-Lacks c d (q ∷ ps) ne h)

pub join-nil : (c : ℕ) → join c [] ≡ []
unfolding join
join-nil c = refl

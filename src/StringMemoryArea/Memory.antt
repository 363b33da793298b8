-- ===== src/StringMemoryArea/Memory.antt =====
-- Laws of the memory behind a string area: C strings in it, and writes over a part of it.
use okssystem.Prelude.{
  ℕ, zero, suc, ◌+◌, ◌-◌, ◌≤◌, ◌<◌, ◌≡◌, refl, ap, sym, ◌∙◌, none, some, [], ◌∷◌, ◌++◌, arith, ◌==◌,
  if◌then◌else◌, length, take, drop, replicate, length-append, length-take, length-drop,
  drop-append, drop-append_eq, take-append_le, take-take, drop-drop, get_elem?, Text, Lacks,
}
use okssystem.StringMemoryArea.{c_str, c_string, overwrite, zero_run}

abbrev pub zeros : ℕ → Text
zeros n = replicate n 0

pub length-zeros : (n : ℕ) → length (zeros n) ≡ n
length-zeros zero = refl
length-zeros (suc n) = ap suc (length-zeros n)

pub c_str_of_Lacks : (s : Text) → Lacks 0 s → c_str s ≡ s
unfolding c_str
c_str_of_Lacks [] h = refl
c_str_of_Lacks (x ∷ s) (hx, hs) = ground (arith, c_str_of_Lacks s hs)

pub c_str-Lacks : (s : Text) → Lacks 0 (c_str s)
unfolding c_str
c_str-Lacks [] = tt
c_str-Lacks (x ∷ s) = ground (arith, c_str-Lacks s)

pub c_string-append : (s r : Text) → Lacks 0 s → c_string (s ++ 0 ∷ r) ≡ some s
unfolding c_string
c_string-append [] r h = refl
c_string-append (x ∷ s) r (hx, hs) = ground (arith, c_string-append s r hs)

-- A C string, its terminator and the bytes behind it.
pub c_string-eq-some :
    (m t : Text)
    → c_string m ≡ some t
    → (m ≡ t ++ 0 ∷ drop (suc (length t)) m) × Lacks 0 t × (length t < length m)
unfolding c_string
c_string-eq-some [] t h = ground arith
c_string-eq-some (x ∷ m) [] h = ground arith
c_string-eq-some (x ∷ m) (y ∷ t) h = ground (arith, c_string-eq-some m t)

pub zero_run_of_c_string :
    (m t : Text)
    → c_string m ≡ some t
    → zero_run m ≡ some (length t, zeros (length t) ++ drop (length t) m)
unfolding c_string zero_run
zero_run_of_c_string [] t h = ground arith
zero_run_of_c_string (x ∷ m) [] h = ground arith
zero_run_of_c_string (x ∷ m) (y ∷ t) h = ground (arith, zero_run_of_c_string m t)

pub zero_run-none : (m : Text) → c_string m ≡ none → zero_run m ≡ none
unfolding c_string zero_run
zero_run-none [] h = refl
zero_run-none (x ∷ m) h = ground (arith, zero_run-none m)

pub length-overwrite :
    (i : ℕ) (b m : Text) → i + length b ≤ length m → length (overwrite i b m) ≡ length m
length-overwrite i b m h = omega (
  arith,
  length-append (take i m) (b ++ drop (i + length b) m),
  length-append b (drop (i + length b) m),
  length-take i m,
  length-drop (i + length b) m,
)

pub drop-overwrite :
    (i : ℕ) (b m : Text) → i ≤ length m → drop i (overwrite i b m) ≡ b ++ drop (i + length b) m
drop-overwrite i b m h = drop-append_eq i (take i m) _ (omega (arith, length-take i m))

-- Nothing before the place of the write changes.
pub take-overwrite :
    (i k : ℕ) (b m : Text) → k ≤ i → i ≤ length m → take k (overwrite i b m) ≡ take k m
take-overwrite i k b m h l =
    take-append_le k (take i m) _ (omega (arith, length-take i m)) ∙ take-take k i m h

-- Nothing behind it changes.
pub drop-overwrite_behind :
    (i k : ℕ) (b m : Text)
    → i + length b ≤ k
    → i + length b ≤ length m
    → drop k (overwrite i b m) ≡ drop k m
drop-overwrite_behind i k b m h l =
    let n = k - (i + length b) in
    let e : k ≡ i + (length b + n) = omega arith in
    let f : k ≡ (i + length b) + n = omega arith in
    ap (λ j. drop j (overwrite i b m)) e
    ∙ sym (drop-drop (length b + n) i (overwrite i b m))
    ∙ ap (drop (length b + n)) (drop-overwrite i b m (omega arith))
    ∙ sym (drop-drop n (length b) (b ++ drop (i + length b) m))
    ∙ ap (drop n) (drop-append b (drop (i + length b) m))
    ∙ drop-drop n (i + length b) m
    ∙ ap (λ j. drop j m) (sym f)

-- A C string that ends before position `k` is read alike from a memory with the same first `k`
-- bytes.
pub c_string-take :
    (m m' t : Text) (k : ℕ)
    → take k m ≡ take k m'
    → length t < k
    → c_string m ≡ some t
    → c_string m' ≡ some t
unfolding c_string
c_string-take [] m' t k e l h = ground arith
c_string-take (x ∷ m) m' t zero e l h = absurd (omega arith)
c_string-take (x ∷ m) [] t (suc k) e l h = cc
c_string-take (x ∷ m) (y ∷ m') [] (suc k) e l h = ground arith
c_string-take (x ∷ m) (y ∷ m') (z ∷ t) (suc k) e l h = ground (arith, c_string-take m m' t k)

-- A NUL at position `n` ends every C string that starts at or before it.
pub c_string_before :
    (m : Text) (n : ℕ)
    → get_elem? m n ≡ some 0
    → (t : Text) × (c_string m ≡ some t) × (length t ≤ n)
unfolding c_string
c_string_before [] n h = absurd (ground arith)
c_string_before (x ∷ m) zero h = ([], ground arith, omega arith)
c_string_before (x ∷ m) (suc n) h =
    let (t, e, l) = c_string_before m n h in
    (if x == 0 then [] else x ∷ t, ground arith, ground arith)

pub get_elem?-drop : (m : Text) (k n : ℕ) → k ≤ n → get_elem? (drop k m) (n - k) ≡ get_elem? m n
get_elem?-drop m zero n h = ap (get_elem? m) (omega arith)
get_elem?-drop [] (suc k) n h = refl
get_elem?-drop (x ∷ m) (suc k) zero h = absurd (omega arith)
get_elem?-drop (x ∷ m) (suc k) (suc n) h =
    let e : suc n - suc k ≡ n - k = omega arith in rw e (get_elem?-drop m k n (omega arith))

pub drop-take : (k n : ℕ) (m : Text) → drop k (take n m) ≡ take (n - k) (drop k m)
drop-take zero n m = ap (λ j. take j m) (omega arith)
drop-take (suc k) zero m = let e : zero - suc k ≡ zero = omega arith in rw e
drop-take (suc k) (suc n) [] = take-nil (suc n - suc k)
  where
    take-nil : (j : ℕ) → [] ≡ take {A = ℕ} j []
    take-nil zero = refl
    take-nil (suc j) = refl
drop-take (suc k) (suc n) (x ∷ m) =
    let e : suc n - suc k ≡ n - k = omega arith in rw e (drop-take k n m)

nul_behind : (s r : Text) → get_elem? ((s ++ 0 ∷ []) ++ r) (length s) ≡ some 0
nul_behind [] r = refl
nul_behind (x ∷ s) r = nul_behind s r

-- The terminator of a C string that is written at `i`.
pub get_elem?-overwrite_nul :
    (i : ℕ) (s m : Text)
    → i ≤ length m
    → get_elem? (overwrite i (s ++ 0 ∷ []) m) (i + length s) ≡ some 0
get_elem?-overwrite_nul i s m h =
    let n = i + length (s ++ 0 ∷ []) in
    let e : i + length s - i ≡ length s = omega arith in
    sym (get_elem?-drop (overwrite i (s ++ 0 ∷ []) m) i (i + length s) (omega arith))
    ∙ ap (get_elem? (drop i (overwrite i (s ++ 0 ∷ []) m))) e
    ∙ ap (λ r. get_elem? r (length s)) (drop-overwrite i (s ++ 0 ∷ []) m h)
    ∙ nul_behind s (drop n m)

-- Single bytes before and behind the place of a write.
pub get_elem?-overwrite_behind :
    (i k : ℕ) (b m : Text)
    → i + length b ≤ k
    → i + length b ≤ length m
    → get_elem? (overwrite i b m) k ≡ get_elem? m k
get_elem?-overwrite_behind i k b m h l =
    sym (get_elem?-drop (overwrite i b m) k k (omega arith))
    ∙ ap (λ r. get_elem? r (k - k)) (drop-overwrite_behind i k b m h l)
    ∙ get_elem?-drop m k k (omega arith)

get_elem?-take : (m : Text) (k n : ℕ) → k < n → get_elem? (take n m) k ≡ get_elem? m k
get_elem?-take m k zero h = absurd (omega arith)
get_elem?-take [] k (suc n) h = refl
get_elem?-take (x ∷ m) zero (suc n) h = refl
get_elem?-take (x ∷ m) (suc k) (suc n) h = get_elem?-take m k n (omega arith)

pub get_elem?-overwrite_before :
    (i k : ℕ) (b m : Text) → k < i → i ≤ length m → get_elem? (overwrite i b m) k ≡ get_elem? m k
get_elem?-overwrite_before i k b m h l =
    sym (get_elem?-take (overwrite i b m) k i h)
    ∙ ap (λ r. get_elem? r k) (take-overwrite i i b m (omega arith) l)
    ∙ get_elem?-take m k i h

pub c_string-zeros : (n : ℕ) (r : Text) → c_string (zeros n ++ 0 ∷ r) ≡ some []
unfolding c_string
c_string-zeros zero r = refl
c_string-zeros (suc n) r = refl

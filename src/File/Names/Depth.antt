-- ===== src/File/Names/Depth.antt =====
-- `depth` counts the directories above a file.
use okssystem.Prelude.{
  ℕ, zero, suc, ◌+◌, ◌≤◌, ◌<◌, ◌≡◌, ◌≢◌, refl, ap, sym, ◌∙◌, inl, inr, some, [], ◌∷◌, ◌++◌, arith,
  ◌==◌, if◌then◌else◌, Option-cases, Bool-cases, length, take, drop, codes, length-drop, Text,
  Lacks, find, find-eq-some, find-eq-none, true, false, pos, negsuc, text_eq,
}
use okssystem.File.Names.{
  slash_char, colon_char, protocol, uri, count_slashes, depth, depth_bounded, file_protocol,
}

-- How often the byte stands in the text.
pub count : ℕ → Text → ℕ
count c [] = 0
count c (x ∷ s) = if x == c then suc (count c s) else count c s

count_of_Lacks : (c : ℕ) (s : Text) → Lacks c s → count c s ≡ 0
unfolding count
count_of_Lacks c [] h = refl
count_of_Lacks c (x ∷ s) (hx, hs) = ground (arith, count_of_Lacks c s hs)

count-append : (c : ℕ) (s t : Text) → count c (s ++ t) ≡ count c s + count c t
unfolding count
count-append c [] t = omega arith
count-append c (x ∷ s) t = ground (arith, count-append c s t)

count_self : (c : ℕ) (s : Text) → count c (c ∷ s) ≡ suc (count c s)
unfolding count
count_self c s = ground arith

-- The loop of `depth` counts the slashes, given a round for each byte.
count_slashes-count :
    (rounds : ℕ) (rest : Text) (n : ℕ)
    → length rest ≤ rounds
    → count_slashes rounds rest n ≡ n + count slash_char rest
unfolding count_slashes
count_slashes-count zero [] n h = unfold count in omega arith
count_slashes-count zero (x ∷ rest) n h = absurd (omega arith)
count_slashes-count (suc rounds) [] n h = unfold count in omega arith
count_slashes-count (suc rounds) (x ∷ rest) n h = elim (Option-cases (find slash_char (x ∷ rest))) [
  | inl e ↦
      rw (e, count_slashes)
        (omega (arith, count_of_Lacks slash_char (x ∷ rest) (find-eq-none slash_char (x ∷ rest) e)))
  | inr (i, e) ↦
      let s = x ∷ rest in
      let (whole, lacks, _) = find-eq-some slash_char s i e in
      rw (e, count_slashes)
        (count_slashes-count rounds (drop (suc i) s) (n + 1) (omega (arith, length-drop (suc i) s))
          ∙ omega (
            arith,
            ap (count slash_char) whole,
            count-append slash_char (take i s) (slash_char ∷ drop (suc i) s),
            count_of_Lacks slash_char (take i s) lacks,
            count_self slash_char (drop (suc i) s),
          ))
]

length-uri : (s : Text) (i : ℕ) → find colon_char s ≡ some i → length (uri s) < length s
unfolding uri
length-uri s i e =
    rw (e, uri) (omega (arith, length-drop (suc i) s, (find-eq-some colon_char s i e).2))

file_has_colon :
    (path : Text) → text_eq (protocol path) file_protocol ≡ true → length (uri path) < length path
unfolding protocol
file_has_colon path h = elim (Option-cases (find colon_char path)) [
  | inl e ↦ let p : protocol path ≡ [] = rw (e, protocol) in let q : false ≡ true = rw p at h in cc
  | inr (i, e) ↦ length-uri path i e
]

-- More calls than bytes are enough, and how many more does not matter.
depth_bounded_enough :
    (f g : ℕ) (path : Text)
    → length path < f
    → length path < g
    → depth_bounded f path ≡ depth_bounded g path
unfolding depth_bounded
depth_bounded_enough zero g path h k = absurd (omega arith)
depth_bounded_enough (suc f) zero path h k = absurd (omega arith)
depth_bounded_enough (suc f) (suc g) path h k =
    elim (Bool-cases (text_eq (protocol path) file_protocol)) [
      | inl e ↦ ground (arith, depth_bounded_enough f g (uri path), file_has_colon path e)
      | inr e ↦ ground arith
    ]

-- An absolute path has as many directories above it as it has slashes behind the first.
pub depth-count : (path : Text) → depth (slash_char ∷ path) ≡ pos (count slash_char path)
unfolding depth
depth-count path =
    ap pos (count_slashes-count (suc (length path)) path 0 (omega arith) ∙ omega arith)

-- A file in a directory has the depth of the directory plus one.
pub depth-child :
    (dir name : Text)
    → Lacks slash_char name
    → (n : ℕ) × (depth (slash_char ∷ dir) ≡ pos n)
      × (depth (slash_char ∷ (dir ++ (slash_char ∷ name))) ≡ pos (n + 1))
depth-child dir name h = (
  count slash_char dir,
  depth-count dir,
  depth-count (dir ++ (slash_char ∷ name))
      ∙ ap pos (
          omega (
            arith,
            count-append slash_char dir (slash_char ∷ name),
            count_self slash_char name,
            count_of_Lacks slash_char name h,
          )),
)

depth_lem : (path : Text) → depth path ≡ depth_bounded (suc (length path)) path
depth_lem path = unfold depth in refl

depth_bounded-file_url :
    (calls : ℕ) (path : Text)
    → depth_bounded (suc calls) (codes "file:" ++ path) ≡ depth_bounded calls path
unfolding depth_bounded
depth_bounded-file_url calls path = refl

-- The depth of a `file:` url, however often the protocol is repeated, is that of its path.
pub depth-file_url : (path : Text) → depth (codes "file:" ++ path) ≡ depth path
depth-file_url path =
    let calls = suc (suc (suc (suc (suc (length path))))) in
    depth_lem (codes "file:" ++ path)
    ∙ depth_bounded-file_url calls path
    ∙ depth_bounded_enough calls (suc (length path)) path (omega arith) (omega arith)
    ∙ sym (depth_lem path)

-- A name that is no absolute path and whose protocol is not `file` has no depth: the result is -1.
pub depth-other :
    (c : ℕ) (name : Text)
    → c ≢ slash_char
    → text_eq (protocol (c ∷ name)) file_protocol ≡ false
    → depth (c ∷ name) ≡ negsuc 0
depth-other c name h e = depth_lem (c ∷ name) ∙ unfold depth_bounded in ground arith

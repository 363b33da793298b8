-- ===== src/File/Names/Parts.antt =====
-- How the parts of a name make up the whole.
use okssystem.Prelude.{
  ℕ, zero, suc, ◌<◌, ◌≡◌, ◌≢◌, refl, ◌⊎◌, inl, inr, some, [], ◌∷◌, ◌++◌, arith, Option-cases,
  length, take, drop, All-append, rfind-append, length-take, Text, Lacks, find, rfind, find-eq-some,
  find-eq-none, rfind-eq-some, rfind-eq-none, true,
}
use okssystem.File.Names.{
  starts_with_slash, slash_char, colon_char, dot_char, newline, protocol, uri, extension,
  short_name, parent_name, first_line,
}

-- With a colon the url is its protocol, the first colon and its uri; with none the protocol is empty
-- and the uri is the url.
pub protocol-uri :
    (url : Text)
    → ((url ≡ protocol url ++ (colon_char ∷ uri url)) × Lacks colon_char (protocol url))
      ⊎ (Lacks colon_char url × (protocol url ≡ []) × (uri url ≡ url))
unfolding protocol uri
protocol-uri url = elim (Option-cases (find colon_char url)) [
  | inl e ↦ inr (find-eq-none colon_char url e, rw (e, protocol), rw (e, uri))
  | inr (i, e) ↦
      let (whole, lacks, _) = find-eq-some colon_char url i e in
      inl (rw (e, protocol, uri) whole, rw (e, protocol) lacks)
]

parent_name-suc :
    (path : Text) (i : ℕ)
    → rfind slash_char path ≡ some (suc i)
    → parent_name path ≡ take (suc i) path
unfolding parent_name
parent_name-suc path i e = rw (e, parent_name) (ground arith)

-- A path with a slash is the parent's name, a slash and the short name, where the slash of the root
-- directory belongs to both; the short name holds no slash. With no slash the short name is the path.
pub parent_name-short_name :
    (path : Text)
    → (((path ≡ parent_name path ++ (slash_char ∷ short_name path))
          ⊎ ((parent_name path ≡ slash_char ∷ []) × (path ≡ parent_name path ++ short_name path)))
        × Lacks slash_char (short_name path))
      ⊎ (Lacks slash_char path × (short_name path ≡ path) × (parent_name path ≡ slash_char ∷ []))
unfolding parent_name short_name
parent_name-short_name path = elim (Option-cases (rfind slash_char path)) [
  | inl e ↦ inr (rfind-eq-none slash_char path e, rw (e, short_name), rw (e, parent_name))
  | inr (zero, e) ↦
      let (whole, lacks, _) = rfind-eq-some slash_char path 0 e in
      inl
        (inr (rw (e, parent_name), rw (e, parent_name, short_name) whole), rw (e, short_name) lacks)
  | inr (suc i, e) ↦
      let (whole, lacks, _) = rfind-eq-some slash_char path (suc i) e in
      inl (inl (rw (parent_name-suc path i e) (rw (e, short_name) whole)), rw (e, short_name) lacks)
]

-- The parent's name is shorter than the path, or is the root directory.
pub length-parent_name :
    (path : Text) → (length (parent_name path) < length path) ⊎ (parent_name path ≡ slash_char ∷ [])
length-parent_name path = elim (Option-cases (rfind slash_char path)) [
  | inl e ↦ inr (unfold parent_name in rw (e, parent_name))
  | inr (zero, e) ↦ inr (unfold parent_name in rw (e, parent_name))
  | inr (suc i, e) ↦ inl (
      rw (parent_name-suc path i e)
        (omega (arith, length-take (suc i) path, (rfind-eq-some slash_char path (suc i) e).2)))
]

first-eq : (c x : ℕ) (s : Text) → find c (x ∷ s) ≡ some 0 → x ≡ c
unfolding find
first-eq c x s e = ground arith

drop_behind : (c : ℕ) (p s : Text) → drop (suc (length p)) (p ++ (c ∷ s)) ≡ s
drop_behind c [] s = refl
drop_behind c (x ∷ p) s = drop_behind c p s

-- `first_line` of a text that does not begin with a newline: what stands before the first newline,
-- or the whole text if there is none.
pub first_line_lem :
    (x : ℕ) (text : Text)
    → x ≢ newline
    → Lacks newline (first_line (x ∷ text))
      × ((x ∷ text ≡ first_line (x ∷ text))
          ⊎ ((rest : Text) × (x ∷ text ≡ first_line (x ∷ text) ++ (newline ∷ rest))))
unfolding first_line
first_line_lem x text h = elim (Option-cases (find newline (x ∷ text))) [
  | inl e ↦ (rw (e, first_line) (find-eq-none newline (x ∷ text) e), inl (rw (e, first_line)))
  | inr (zero, e) ↦ absurd (h (first-eq newline x text e))
  | inr (suc i, e) ↦
      let (whole, lacks, _) = find-eq-some newline (x ∷ text) (suc i) e in
      let line : first_line (x ∷ text) ≡ take (suc i) (x ∷ text) =
        rw (e, first_line) (ground arith) in
      (rw line lacks, inr (drop (suc (suc i)) (x ∷ text), rw line whole))
]

-- A text that begins with a newline is returned whole, with all of its lines.
pub first_line_whole : (text : Text) → first_line (newline ∷ text) ≡ newline ∷ text
unfolding first_line find
first_line_whole text = refl

-- The extension starts behind the last dot wherever that stands: a dot in the name of a directory
-- gives a file without an extension one that holds a slash.
pub extension-directory :
    (dir rest name : Text)
    → Lacks dot_char rest
    → Lacks dot_char name
    → extension (dir ++ (dot_char ∷ (rest ++ (slash_char ∷ name)))) ≡ rest ++ (slash_char ∷ name)
unfolding extension
extension-directory dir rest name h k =
    let tail = rest ++ (slash_char ∷ name) in
    let clean : Lacks dot_char tail =
      All-append (λ x. x ≢ dot_char) rest (slash_char ∷ name) h (omega arith, k) in
    rw (rfind-append dot_char dir tail clean, extension) (drop_behind dot_char dir tail)

starts-take :
    (path : Text) (i : ℕ)
    → starts_with_slash path ≡ true
    → starts_with_slash (take (suc i) path) ≡ true
starts-take [] i h = h
starts-take (c ∷ path) i h = h

-- The parent of an absolute path is absolute.
pub parent_name_absolute :
    (path : Text) → starts_with_slash path ≡ true → starts_with_slash (parent_name path) ≡ true
parent_name_absolute path h = elim (Option-cases (rfind slash_char path)) [
  | inl e ↦ unfold parent_name in rw (e, parent_name)
  | inr (zero, e) ↦ unfold parent_name in rw (e, parent_name)
  | inr (suc i, e) ↦ rw (parent_name-suc path i e) (starts-take path i h)
]

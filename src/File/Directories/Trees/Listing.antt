-- ===== src/File/Directories/Trees/Listing.antt =====
-- What `directory` and `remove` make of the entries of a directory in a tree.
use okssystem.Prelude.{
  ◌≡◌, ◌≢◌, inl, inr, refl, ap, sym, ◌∙◌, Bool, Bool-cases, true, false, Option, none, some,
  Option-cases, List, [], ◌∷◌, ◌++◌, append_assoc, append-nil, arith, All, Text, codes, map,
}
use okssystem.Calls.{UserCalls, FileCalls}
use okssystem.File.Names.{starts_with_slash}
use okssystem.File.Object.{File}
use okssystem.File.Object.Absolute.{starts-append}
use okssystem.File.Directories.Links.{is_dots, entry_file, entry_files, IsDirectory}
use okssystem.File.Directories.Trees.{path_at, IsName, Listed, IsTree}

pub path_at-snoc :
    (root : Text) (ns : List Text) (name : Text)
    → path_at root (ns ++ name ∷ []) ≡ path_at root ns ++ (codes "/" ++ name)
path_at-snoc root [] name = refl
path_at-snoc root (n ∷ ns) name = path_at-snoc (root ++ (codes "/" ++ n)) ns name

pub path_at_absolute :
    (root : Text) (ns : List Text)
    → starts_with_slash root ≡ true
    → starts_with_slash (path_at root ns) ≡ true
path_at_absolute root [] h = h
path_at_absolute root (n ∷ ns) h =
    path_at_absolute (root ++ (codes "/" ++ n)) ns (starts-append root (codes "/" ++ n) h)

-- The entries besides `.` and `..`.
abbrev kept : Bool → Text → List Text → List Text
kept true name names = names
kept false name names = name ∷ names

abbrev pub listed : List Text → List Text
listed [] = []
listed (name ∷ names) = kept (is_dots name) name (listed names)

abbrev pub file_at : Text → List Text → File
file_at root ns = record { full_name = path_at root ns }

pub listed-Listed :
    (name : Text) (names : List Text)
    → is_dots name ≡ false
    → Listed name names
    → Listed name (listed names)
listed-Listed name [] h m = m
listed-Listed name (n ∷ names) h (inl e) =
    let plain : is_dots n ≡ false = ap is_dots (sym e) ∙ h in rw plain (inl e)
listed-Listed name (n ∷ names) h (inr m) = elim (Bool-cases (is_dots n)) [
  | inl e ↦ rw e (listed-Listed name names h m)
  | inr e ↦ rw e (inr (listed-Listed name names h m))
]

pub All-listed :
    (P : Text → Type 0) (names : List Text)
    → All (λ n. is_dots n ≡ false → P n) names
    → All P (listed names)
All-listed P [] h = tt
All-listed P (n ∷ names) (p, h) = elim (Bool-cases (is_dots n)) [
  | inl e ↦ rw e (All-listed P names h)
  | inr e ↦ rw e (p e, All-listed P names h)
]

pub All-get :
    (P : Text → Type 0) (name : Text) (names : List Text) → All P names → Listed name names → P name
All-get P name [] h m = absurd m
All-get P name (n ∷ names) (p, h) (inl e) = rw e p
All-get P name (n ∷ names) (p, h) (inr m) = All-get P name names h m

module _ {W : Type 0} (users : UserCalls W) (files : FileCalls W) (root : Text)
    (there : List Text → W → Option Bool) (laws : IsTree files root there) where
  pub entry_files-listed :
      (ns names : List Text) (w : W)
      → All (λ n. is_dots n ≡ false → IsName n × (there (ns ++ n ∷ []) w ≢ none)) names
      → entry_files users files (path_at root ns) names w
        ≡ map (λ n. file_at root (ns ++ n ∷ [])) (listed names)
  entry_files-listed ns [] w h = refl
  entry_files-listed ns (name ∷ names) w (p, h) = elim (Bool-cases (is_dots name)) [
    | inl e ↦ rw e (entry_files-listed ns names w h)
    | inr e ↦
        let real = laws.real (ns ++ name ∷ []) w (p e).1 in
        let same : entry_file users files (path_at root ns) name w
            ≡ file_at root (ns ++ name ∷ []) =
          let found = rw (path_at-snoc root ns name) at real in
          ground (arith, found, path_at-snoc root ns name) in
        rw e (rw (same, entry_files-listed ns names w h) refl)
  ]

  -- A directory of the tree can be listed.
  pub tree-IsDirectory :
      (ns : List Text) (w : W) (h : there ns w ≡ some true)
      → IsDirectory users files (file_at root ns) (laws.lists ns w h).0 w
  tree-IsDirectory ns w h =
      let (st, has, mode) = laws.stands ns w true h in
      record {
        absolute = path_at_absolute root ns laws.absolute;
        real_absolute = λ p q e. laws.real_absolute p q w e;
        st = st;
        has_status = has;
        has_mode = mode;
        opens = (laws.lists ns w h).1;
        closes = laws.closes ns w h;
      }

  -- Beneath what is not there is nothing.
  pub nothing_beneath : (ns ms : List Text) (w : W) → there ns w ≡ none → there (ns ++ ms) w ≡ none
  nothing_beneath ns [] w h = rw (append-nil ns) h
  nothing_beneath ns (m ∷ ms) w h = elim (Option-cases (there (ns ++ m ∷ []) w)) [
    | inl e ↦ rw (← append_assoc ns (m ∷ []) ms) (nothing_beneath (ns ++ m ∷ []) ms w e)
    | inr (d, e) ↦ let up = laws.parents ns m w (λ gone. cc) in absurd (cc)
  ]

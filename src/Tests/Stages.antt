-- ===== src/Tests/Stages.antt =====
-- The stages of the removal of a directory with one file, and what the calls see of it.
use okssystem.Prelude.{
  ℕ, ◌≤◌, ◌≡◌, ◌≢◌, inl, inr, refl, ap, Bool, Bool-cases, true, ◌||◌, false, Option, none, some,
  List, [], ◌∷◌, ◌++◌, arith, All, length, length-append, if◌then◌else◌, Text, codes, text_eq,
  text_eq-eq,
}
use okssystem.Calls.{Answer, done, failed, Stat, FileCalls}
use okssystem.File.Names.{starts_with_slash}
use okssystem.File.Object.{mode_is_directory}
use okssystem.File.Directories.Trees.{path_at, IsName}
use okssystem.Tests.World.{bare_files}

pub data Stage : Type 0 where
  full emptied removed : Stage

abbrev pub there : List Text → Stage → Option Bool
there [] full = some true
there [] emptied = some true
there [] removed = none
there (n ∷ []) full = if text_eq n (codes "a") then some false else none
there (n ∷ []) emptied = none
there (n ∷ []) removed = none
there (n ∷ m ∷ ns) w = none

abbrev status : ℕ → Answer Stat
status mode = done (record { st_mode = mode; st_size = 10; st_uid = 7; st_gid = 7 })

abbrev is_root : Text → Bool
is_root p = text_eq p (codes "/t")

abbrev is_file : Text → Bool
is_file p = text_eq p (codes "/t/a")

abbrev pub stat : Text → Stage → Answer Stat
stat p full = if is_root p then status 0o40755 else if is_file p then status 0o100644 else failed 2
stat p emptied = if is_root p then status 0o40755 else failed 2
stat p removed = failed 2

abbrev pub realpath : Text → Stage → Option Text
realpath p full = if is_root p || is_file p then some p else none
realpath p emptied = if is_root p then some p else none
realpath p removed = none

abbrev pub opendir : Text → Stage → Answer (List Text)
opendir p full = if is_root p then done (codes "." ∷ codes ".." ∷ codes "a" ∷ []) else failed 2
opendir p emptied = if is_root p then done (codes "." ∷ codes ".." ∷ []) else failed 2
opendir p removed = failed 2

abbrev pub unlink : Text → Stage → Answer (Unit {0}) × Stage
unlink p full = if is_file p then (done tt, emptied) else (failed 2, full)
unlink p emptied = (failed 2, emptied)
unlink p removed = (failed 2, removed)

abbrev pub rmdir : Text → Stage → Answer (Unit {0}) × Stage
rmdir p full = (failed 39, full)
rmdir p emptied = if is_root p then (done tt, removed) else (failed 2, emptied)
rmdir p removed = (failed 2, removed)

abbrev pub files : FileCalls Stage
files = record bare_files {
  stat = stat;
  realpath = realpath;
  opendir = opendir;
  unlink = unlink;
  rmdir = rmdir;
}

length-path_at : (root : Text) (ns : List Text) → length root ≤ length (path_at root ns)
length-path_at root [] = omega arith
length-path_at root (n ∷ ns) =
    omega (arith, length-path_at (root ++ (codes "/" ++ n)) ns, length-append root (codes "/" ++ n))

-- A file two levels down has a longer name than the two files.
deep_name :
    (n m : Text) (ns : List Text) (p : Text)
    → n ≢ []
    → length p ≤ 4
    → text_eq (path_at (codes "/t") (n ∷ m ∷ ns)) p ≡ false
deep_name [] m ns p named short = absurd (named refl)
deep_name (c ∷ n) m ns p named short =
    let q = path_at (codes "/t") ((c ∷ n) ∷ m ∷ ns) in
    elim (Bool-cases (text_eq q p)) [
      | inl e ↦ absurd (
          omega (
            arith,
            ap length (text_eq-eq q p e),
            length-path_at (codes "/t/" ++ (c ∷ n) ++ (codes "/" ++ m)) ns,
            length-append (c ∷ n) (codes "/" ++ m),
          ))
      | inr e ↦ e
    ]

pub stands :
    (ns : List Text) (w : Stage) (d : Bool)
    → there ns w ≡ some d
    → (st : Stat) × (stat (path_at (codes "/t") ns) w ≡ done st)
      × (mode_is_directory st.st_mode ≡ d)
stands [] full d h = (record { st_mode = 0o40755; st_size = 10; st_uid = 7; st_gid = 7 }, refl, cc)
stands [] emptied d h =
    (record { st_mode = 0o40755; st_size = 10; st_uid = 7; st_gid = 7 }, refl, cc)
stands [] removed d h = absurd (cc)
stands (n ∷ []) full d h = (
  record { st_mode = 0o100644; st_size = 10; st_uid = 7; st_gid = 7 },
  ground arith,
  ground arith,
)
stands (n ∷ []) emptied d h = absurd (cc)
stands (n ∷ []) removed d h = absurd (cc)
stands (n ∷ m ∷ ns) w d h = absurd (cc)

pub misses :
    (ns : List Text) (w : Stage)
    → All IsName ns
    → there ns w ≡ none
    → (errno : ℕ) × (stat (path_at (codes "/t") ns) w ≡ failed errno)
      × (realpath (path_at (codes "/t") ns) w ≡ none)
misses [] full clean h = absurd (cc)
misses [] emptied clean h = absurd (cc)
misses ns removed clean h = (2, refl, refl)
misses (n ∷ []) full clean h = (2, ground arith, ground arith)
misses (n ∷ []) emptied clean h = (2, refl, refl)
misses (n ∷ m ∷ ns) full (p, clean) h =
    let not_root = deep_name n m ns (codes "/t") p.2 (omega arith) in
    let not_file = deep_name n m ns (codes "/t/a") p.2 (omega arith) in
    (2, rw (not_root, not_file) refl, rw (not_root, not_file) refl)
misses (n ∷ m ∷ ns) emptied (p, clean) h =
    let not_root = deep_name n m ns (codes "/t") p.2 (omega arith) in
    (2, rw not_root refl, rw not_root refl)

pub real :
    (ns : List Text) (w : Stage)
    → there ns w ≢ none
    → realpath (path_at (codes "/t") ns) w ≡ some (path_at (codes "/t") ns)
real [] full h = refl
real [] emptied h = refl
real [] removed h = absurd (h refl)
real (n ∷ []) full h = elim (Bool-cases (text_eq n (codes "a"))) [
  | inl e ↦ ground (arith, e)
  | inr e ↦ absurd (h (rw e refl))
]
real (n ∷ []) emptied h = absurd (h refl)
real (n ∷ []) removed h = absurd (h refl)
real (n ∷ m ∷ ns) w h = absurd (h refl)

path_absolute : (p : Text) → (is_root p || is_file p) ≡ true → starts_with_slash p ≡ true
path_absolute [] h = absurd (cc)
path_absolute (c ∷ p) h = ground arith

pub real_absolute : (p q : Text) (w : Stage) → realpath p w ≡ some q → starts_with_slash q ≡ true
real_absolute p q full h = elim (Bool-cases (is_root p || is_file p)) [
  | inl e ↦ let same : p ≡ q = ground (arith, e, h) in rw (← same) (path_absolute p e)
  | inr e ↦ absurd (let k = rw e at h in cc)
]
real_absolute p q emptied h = elim (Bool-cases (is_root p)) [
  | inl e ↦
      let same : p ≡ q = ground (arith, e, h) in rw (← same) (path_absolute p (ground (arith, e)))
  | inr e ↦ absurd (let k = rw e at h in cc)
]
real_absolute p q removed h = absurd (cc)

pub parents :
    (ns : List Text) (name : Text) (w : Stage)
    → there (ns ++ name ∷ []) w ≢ none
    → there ns w ≡ some true
parents [] name full h = refl
parents [] name emptied h = refl
parents [] name removed h = absurd (h refl)
parents (n ∷ []) name w h = absurd (h refl)
parents (n ∷ m ∷ ns) name w h = absurd (h refl)

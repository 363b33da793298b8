-- ===== src/Tests/Trees.antt =====
-- A directory with one file, in the three stages of its removal.
use okssystem.Prelude.{
  ◌≤◌, ◌≡◌, ◌≢◌, inl, inr, refl, ap, Bool-cases, true, false, none, some, List, [], ◌∷◌, ◌++◌,
  arith, All, length, Text, codes, text_eq, text_eq-eq, ok,
}
use okssystem.Calls.{done}
use okssystem.File.Directories.{remove}
use okssystem.File.Directories.Links.{is_dots}
use okssystem.File.Directories.Trees.{path_at, IsName, Listed, IsTree}
use okssystem.File.Directories.Trees.Removal.{remove_tree}
use okssystem.Tests.World.{bare_users}
use okssystem.Tests.Stages.{
  Stage, full, emptied, removed, there, opendir, unlink, rmdir, files, stands, misses, real,
  real_absolute, parents,
}

lists :
    (ns : List Text) (w : Stage)
    → there ns w ≡ some true
    → (names : List Text) × (opendir (path_at (codes "/t") ns) w ≡ done names)
      × All (λ n. is_dots n ≡ false → IsName n × (there (ns ++ n ∷ []) w ≢ none)) names
      × ((n : Text) → there (ns ++ n ∷ []) w ≢ none → (is_dots n ≡ false) × Listed n names)
lists [] full h = (
  codes "." ∷ codes ".." ∷ codes "a" ∷ [],
  refl,
  (λ e. absurd (cc), (λ e. absurd (cc), (λ e. ((refl, (omega arith, tt), λ k. cc), λ k. cc), tt))),
  λ n k. elim (Bool-cases (text_eq n (codes "a"))) [
    | inl e ↦ rw (text_eq-eq n (codes "a") e) (refl, inr (inr (inl refl)))
    | inr e ↦ absurd (k (rw e refl))
  ],
)
lists [] emptied h = (
  codes "." ∷ codes ".." ∷ [],
  refl,
  (λ e. absurd (cc), (λ e. absurd (cc), tt)),
  λ n k. absurd (k refl),
)
lists [] removed h = absurd (cc)
lists (n ∷ []) full h = absurd (ground arith)
lists (n ∷ []) emptied h = absurd (cc)
lists (n ∷ []) removed h = absurd (cc)
lists (n ∷ m ∷ ns) w h = absurd (cc)

unlinks :
    (ns : List Text) (w : Stage)
    → there ns w ≡ some false
    → (w' : Stage) × (unlink (path_at (codes "/t") ns) w ≡ (done tt, w'))
      × (there ns w' ≡ none)
      × ((os : List Text) → os ≢ ns → there os w' ≡ there os w)
unlinks [] full h = absurd (cc)
unlinks [] emptied h = absurd (cc)
unlinks [] removed h = absurd (cc)
unlinks (n ∷ []) full h = (emptied, ground arith, refl, others)
  where
    others : (os : List Text) → os ≢ n ∷ [] → there os emptied ≡ there os full
    others [] apart = refl
    others (m ∷ []) apart = elim (Bool-cases (text_eq m (codes "a"))) [
      | inl e ↦
          let n' : n ≡ codes "a" = text_eq-eq n (codes "a") (ground arith) in
          absurd (apart (ap (λ k. k ∷ []) (rw (n', text_eq-eq m (codes "a") e) refl)))
      | inr e ↦ rw e refl
    ]
    others (m ∷ k ∷ os) apart = refl
unlinks (n ∷ []) emptied h = absurd (cc)
unlinks (n ∷ []) removed h = absurd (cc)
unlinks (n ∷ m ∷ ns) w h = absurd (cc)

rmdirs :
    (ns : List Text) (w : Stage)
    → there ns w ≡ some true
    → ((n : Text) → there (ns ++ n ∷ []) w ≡ none)
    → (w' : Stage) × (rmdir (path_at (codes "/t") ns) w ≡ (done tt, w'))
      × (there ns w' ≡ none)
      × ((os : List Text) → os ≢ ns → there os w' ≡ there os w)
rmdirs [] full h empty = absurd (let e = empty (codes "a") in cc)
rmdirs [] emptied h empty = (removed, refl, refl, others)
  where
    others : (os : List Text) → os ≢ [] → there os removed ≡ there os emptied
    others [] apart = absurd (apart refl)
    others (m ∷ []) apart = refl
    others (m ∷ k ∷ os) apart = refl
rmdirs [] removed h empty = absurd (cc)
rmdirs (n ∷ []) full h empty = absurd (ground arith)
rmdirs (n ∷ []) emptied h empty = absurd (cc)
rmdirs (n ∷ []) removed h empty = absurd (cc)
rmdirs (n ∷ m ∷ ns) w h empty = absurd (cc)

closes :
    (ns : List Text) (w : Stage)
    → there ns w ≡ some true
    → files.closedir (path_at (codes "/t") ns) w ≡ done tt
closes ns w h = refl

files-IsTree : IsTree files (codes "/t") there
files-IsTree = record {
  absolute = refl;
  real_absolute = real_absolute;
  stands = stands;
  misses = misses;
  real = real;
  parents = parents;
  lists = lists;
  closes = closes;
  unlinks = unlinks;
  rmdirs = rmdirs;
}

shallow : (ms : List Text) → 2 ≤ length ms → there ms full ≡ none
shallow [] l = absurd (omega arith)
shallow (m ∷ []) l = absurd (omega arith)
shallow (m ∷ k ∷ ms) l = refl

remove_tree_example :
    (w' : Stage) × (remove bare_users files 2 (record { full_name = codes "/t" }) full ≡ ok tt w')
    × ((ms : List Text) → there ms w' ≡ none)
    × ((os : List Text) → ((ms : List Text) → os ≢ ms) → there os w' ≡ there os full)
remove_tree_example =
    remove_tree bare_users files (codes "/t") there files-IsTree 2 [] true full tt refl shallow

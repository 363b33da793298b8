-- ===== src/File/Directories/Trees.antt =====
-- A directory tree without links, as what `remove` meets: an abstract view of the files beneath a
-- directory, and what the system calls do to it.
pub mod Listing
pub mod Removal
use okssystem.Prelude.{
  ℕ, ◌≡◌, ◌≢◌, ◌⊎◌, Bool, true, false, Option, none, some, List, [], ◌∷◌, ◌++◌, All, Text, codes,
  Lacks,
}
use okssystem.Calls.{done, failed, Stat, FileCalls}
use okssystem.File.Names.{slash_char, starts_with_slash}
use okssystem.File.Object.{mode_is_directory}
use okssystem.File.Directories.Links.{is_dots}

-- A file beneath the directory `root`, by the names on its way.
abbrev pub path_at : Text → List Text → Text
path_at root [] = root
path_at root (name ∷ names) = path_at (root ++ (codes "/" ++ name)) names

-- A name in a directory, other than `.` and `..`.
abbrev pub IsName : Text → Type 0
IsName name = (is_dots name ≡ false) × Lacks slash_char name × (name ≢ [])

abbrev pub Listed : Text → List Text → Type 0
Listed name [] = ⊥
Listed name (n ∷ names) = (name ≡ n) ⊎ Listed name names

-- `there` says what stands at the names: nothing, a directory (`true`) or another file. Every file
-- is its own `realpath`, and what is not there has none; a directory lists its entries; `unlink` takes a file away that is no
-- directory, and `rmdir` a directory without entries.
pub record IsTree {W : Type 0} (files : FileCalls W) (root : Text)
    (there : List Text → W → Option Bool) : Type 0 where
  pub absolute : starts_with_slash root ≡ true
  pub real_absolute :
      (p q : Text) (w : W) → files.realpath p w ≡ some q → starts_with_slash q ≡ true
  pub stands :
      (ns : List Text) (w : W) (d : Bool)
      → there ns w ≡ some d
      → (st : Stat) × (files.stat (path_at root ns) w ≡ done st)
        × (mode_is_directory st.st_mode ≡ d)
  pub misses :
      (ns : List Text) (w : W)
      → All IsName ns
      → there ns w ≡ none
      → (errno : ℕ) × (files.stat (path_at root ns) w ≡ failed errno)
        × (files.realpath (path_at root ns) w ≡ none)
  pub real :
      (ns : List Text) (w : W)
      → there ns w ≢ none
      → files.realpath (path_at root ns) w ≡ some (path_at root ns)
  pub parents :
      (ns : List Text) (name : Text) (w : W)
      → there (ns ++ name ∷ []) w ≢ none
      → there ns w ≡ some true
  pub lists :
      (ns : List Text) (w : W)
      → there ns w ≡ some true
      → (names : List Text) × (files.opendir (path_at root ns) w ≡ done names)
        × All (λ n. is_dots n ≡ false → IsName n × (there (ns ++ n ∷ []) w ≢ none)) names
        × ((n : Text) → there (ns ++ n ∷ []) w ≢ none → (is_dots n ≡ false) × Listed n names)
  pub closes :
      (ns : List Text) (w : W)
      → there ns w ≡ some true
      → files.closedir (path_at root ns) w ≡ done tt
  pub unlinks :
      (ns : List Text) (w : W)
      → there ns w ≡ some false
      → (w' : W) × (files.unlink (path_at root ns) w ≡ (done tt, w'))
        × (there ns w' ≡ none)
        × ((os : List Text) → os ≢ ns → there os w' ≡ there os w)
  pub rmdirs :
      (ns : List Text) (w : W)
      → there ns w ≡ some true
      → ((n : Text) → there (ns ++ n ∷ []) w ≡ none)
      → (w' : W) × (files.rmdir (path_at root ns) w ≡ (done tt, w'))
        × (there ns w' ≡ none)
        × ((os : List Text) → os ≢ ns → there os w' ≡ there os w)

-- ===== src/File/Directories/Trees/Removal.antt =====
-- `remove` of a file or a directory in a tree without links.
use okssystem.Prelude.{
  ℕ, zero, suc, ◌≤◌, ◌≡◌, ◌≢◌, inl, inr, refl, ap, sym, ◌∙◌, Bool, true, false, Option, none, some,
  Option-cases, List, [], ◌∷◌, ◌++◌, append_assoc, append-nil, arith, All, length, length-append,
  Text, map, ok, All-imp,
}
use mathlib.Core.List.{List-discrete}
use native.Mathlib.Decide.{ℕ_discrete}
use okssystem.Calls.{UserCalls, FileCalls}
use okssystem.File.Object.{File}
use okssystem.File.Directories.{remove, remove_children, rmdir}
use okssystem.File.Directories.Links.{
  remove_child_there, remove_child_missing, remove_enters, remove_plain,
}
use okssystem.File.Directories.Trees.{path_at, IsName, IsTree}
use okssystem.File.Directories.Trees.Listing.{
  file_at, path_at_absolute, listed, listed-Listed, All-listed, All-get, entry_files-listed,
  tree-IsDirectory, nothing_beneath,
}

names-discrete : Discrete (List Text)
names-discrete = List-discrete (List-discrete ℕ_discrete)

module _ {W : Type 0} (users : UserCalls W) (files : FileCalls W) (root : Text)
    (there : List Text → W → Option Bool) (laws : IsTree files root there) where
  -- What has happened between two states: nothing has come into being, and only files beneath
  -- one of the entries of `ns`, or beneath `ns` itself, have changed.
  abbrev Shrinks : W → W → Type 0
  Shrinks w w' = (os : List Text) → there os w ≡ none → there os w' ≡ none

  abbrev Spares : List Text → W → W → Type 0
  Spares ns w w' = (os : List Text) → ((ms : List Text) → os ≢ ns ++ ms) → there os w' ≡ there os w

  abbrev SparesAbove : List Text → W → W → Type 0
  SparesAbove ns w w' =
      (os : List Text)
      → ((n : Text) (ms : List Text) → os ≢ ns ++ n ∷ ms)
      → there os w' ≡ there os w

  -- Less than this many levels stand beneath the names.
  abbrev Within : ℕ → List Text → W → Type 0
  Within levels ns w = (ms : List Text) → levels ≤ length ms → there (ns ++ ms) w ≡ none

  -- One file is gone, and the others are as they were.
  gone-Shrinks :
      (ns : List Text) (w w' : W)
      → there ns w' ≡ none
      → ((os : List Text) → os ≢ ns → there os w' ≡ there os w)
      → Shrinks w w'
  gone-Shrinks ns w w' gone same os h = elim (names-discrete os ns) [
    | yes e ↦ rw e gone
    | no ne ↦ same os ne ∙ h
  ]

  abbrev Removed : List Text → (W → Type 0) → W → Type 0
  Removed ns Result w =
      (w' : W) × Result w'
      × ((ms : List Text) → there (ns ++ ms) w' ≡ none)
      × Shrinks w w'
      × Spares ns w w'

  RemovesAt : ℕ → List Text → W → Type 0
  RemovesAt levels ns w =
      Removed ns (λ w'. remove users files levels (file_at root ns) w ≡ ok tt w') w

  remove_file :
      (levels : ℕ) (ns : List Text) (w : W) → there ns w ≡ some false → RemovesAt (suc levels) ns w
  unfolding RemovesAt
  remove_file levels ns w h =
      let (st, has, mode) = laws.stands ns w false h in
      let (w', removed, gone, same) = laws.unlinks ns w h in
      (
        w',
        remove_plain users files levels (file_at root ns) st w w' has mode removed,
        λ ms. nothing_beneath users files root there laws ns ms w' gone,
        gone-Shrinks ns w w' gone same,
        λ os apart. same os (λ e. apart [] (e ∙ sym (append-nil ns))),
      )

  -- The loop over the entries.
  abbrev entries_at : List Text → List Text → List File
  entries_at ns names = map (λ n. file_at root (ns ++ n ∷ [])) names

  remove_missing :
      (levels : ℕ) (ns names : List Text) (name : Text) (w : W)
      → All IsName (ns ++ name ∷ [])
      → there (ns ++ name ∷ []) w ≡ none
      → remove_children users files (remove users files levels) (entries_at ns (name ∷ names)) w
        ≡ remove_children users files (remove users files levels) (entries_at ns names) w
  unfolding remove_children
  remove_missing levels ns names name w clean h =
      let (errno, e, real) = laws.misses (ns ++ name ∷ []) w clean h in
      let long = path_at_absolute root (ns ++ name ∷ []) laws.absolute in
      rw
        (remove_child_missing users files (remove users files levels)
          (file_at root (ns ++ name ∷ [])) errno w long real e)
        refl

  remove_next :
      (levels : ℕ) (ns names : List Text) (name : Text) (d : Bool) (w w' : W)
      → there (ns ++ name ∷ []) w ≡ some d
      → remove users files levels (file_at root (ns ++ name ∷ [])) w ≡ ok tt w'
      → remove_children users files (remove users files levels) (entries_at ns (name ∷ names)) w
        ≡ remove_children users files (remove users files levels) (entries_at ns names) w'
  unfolding remove_children
  remove_next levels ns names name d w w' h e =
      let (st, has, mode) = laws.stands (ns ++ name ∷ []) w d h in
      let long = path_at_absolute root (ns ++ name ∷ []) laws.absolute in
      let real = laws.real (ns ++ name ∷ []) w (λ gone. cc) in
      rw
        (remove_child_there users files (remove users files levels) (file_at root (ns ++ name ∷ []))
          st w long real has)
        (rw e refl)

  -- `remove` of every entry of `ns`, with a bound that is enough for it.
  abbrev RemovesEntries : ℕ → List Text → Type 0
  RemovesEntries levels ns =
      (n : Text) (v : W) (d : Bool)
      → IsName n
      → there (ns ++ n ∷ []) v ≡ some d
      → Within levels (ns ++ n ∷ []) v
      → RemovesAt levels (ns ++ n ∷ []) v

  All-snoc : (ns : List Text) (n : Text) → All IsName ns → IsName n → All IsName (ns ++ n ∷ [])
  All-snoc [] n h p = (p, tt)
  All-snoc (m ∷ ns) n (pm, h) p = (pm, All-snoc ns n h p)

  remove_entries :
      (levels : ℕ) (ns names : List Text) (w : W)
      → RemovesEntries levels ns
      → All IsName ns
      → All IsName names
      → ((n : Text) → Within levels (ns ++ n ∷ []) w)
      → (w' : W) × (remove_children users files (remove users files levels) (entries_at ns names) w
          ≡ ok tt w')
        × All (λ n. there (ns ++ n ∷ []) w' ≡ none) names
        × Shrinks w w'
        × SparesAbove ns w w'
  unfolding RemovesAt remove_children
  remove_entries levels ns [] w each clean named within = (w, refl, tt, λ os h. h, λ os apart. refl)
  remove_entries levels ns (name ∷ names) w each clean (p, named) within =
      elim (Option-cases (there (ns ++ name ∷ []) w)) [
        | inl e ↦
            let (w', loop, gone, shrinks, spares) =
              remove_entries levels ns names w each clean named within in
            (
              w',
              remove_missing levels ns names name w (All-snoc ns name clean p) e ∙ loop,
              (shrinks (ns ++ name ∷ []) e, gone),
              shrinks,
              spares,
            )
        | inr (d, e) ↦
            let (v, step, out, shrinks, spares) = each name w d p e (within name) in
            let (w', loop, gone, shrinks', spares') =
              remove_entries levels ns names v each clean named
                (λ n ms l. shrinks ((ns ++ n ∷ []) ++ ms) (within n ms l)) in
            let first : there (ns ++ name ∷ []) v ≡ none =
              rw (← append-nil (ns ++ name ∷ [])) (out []) in
            (
              w',
              remove_next levels ns names name d w v e step ∙ loop,
              (shrinks' (ns ++ name ∷ []) first, gone),
              λ os h. shrinks' os (shrinks os h),
              λ os apart.
                  spares' os apart
                  ∙ spares os (λ ms same. apart name ms (same ∙ append_assoc ns (name ∷ []) ms)),
            )
      ]

  not_above : (ns : List Text) (n : Text) (ms : List Text) → ns ≢ ns ++ n ∷ ms
  not_above ns n ms e = absurd (omega (arith, ap length e, length-append ns (n ∷ ms)))

  remove_directory :
      (levels : ℕ) (ns : List Text) (w : W)
      → RemovesEntries levels ns
      → All IsName ns
      → there ns w ≡ some true
      → Within (suc levels) ns w
      → RemovesAt (suc levels) ns w
  unfolding RemovesAt rmdir
  remove_directory levels ns w each clean h within =
      let (names, opens, plain, complete) = laws.lists ns w h in
      let named =
        All-listed IsName names (All-imp _ _ (λ n both plain'. (both plain').0) names plain) in
      let (v, loop, gone, shrinks, spares) =
        remove_entries levels ns (listed names) w each clean named
          (λ n ms l. rw (append_assoc ns (n ∷ []) ms) (within (n ∷ ms) (omega arith))) in
      let still : there ns v ≡ some true = spares ns (not_above ns) ∙ h in
      let empty : (n : Text) → there (ns ++ n ∷ []) v ≡ none = λ n.
        elim (Option-cases (there (ns ++ n ∷ []) w)) [
          | inl e ↦ shrinks (ns ++ n ∷ []) e
          | inr (d, e) ↦
              let (shown, m) = complete n (λ missing. cc) in
              All-get _ n (listed names) gone (listed-Listed n names shown m)
        ] in
      let (w', removed, out, same) = laws.rmdirs ns v still empty in
      (
        w',
        remove_enters users files levels (file_at root ns) names w
              (tree-IsDirectory users files root there laws ns w h)
            ∙ rw (entry_files-listed users files root there laws ns names w plain)
                (rw loop (rw removed refl)),
        λ ms. nothing_beneath users files root there laws ns ms w' out,
        λ os missing. gone-Shrinks ns v w' out same os (shrinks os missing),
        λ os apart.
            same os (λ e. apart [] (e ∙ sym (append-nil ns)))
            ∙ spares os (λ n ms e. apart (n ∷ ms) e),
      )

  remove_at :
      (levels : ℕ) (ns : List Text) (d : Bool) (w : W)
      → All IsName ns
      → there ns w ≡ some d
      → Within levels ns w
      → RemovesAt levels ns w
  remove_at zero ns d w clean h within =
      let missing : there ns w ≡ none = rw (← append-nil ns) (within [] (omega arith)) in
      absurd (cc)
  remove_at (suc levels) ns false w clean h within = remove_file levels ns w h
  remove_at (suc levels) ns true w clean h within =
      remove_directory levels ns w
        (λ n v d p e less. remove_at levels (ns ++ n ∷ []) d v (All-snoc ns n clean p) e less) clean
        h within

  -- In a tree without links (`IsTree`), where the calls on its files succeed: `remove` of a file or
  -- directory returns if fewer levels stand beneath it than its recursion may go down. Then it and
  -- all that stood beneath it are gone, and every other file of the tree is as it was.
  pub remove_tree :
      (levels : ℕ) (ns : List Text) (d : Bool) (w : W)
      → All IsName ns
      → there ns w ≡ some d
      → ((ms : List Text) → levels ≤ length ms → there (ns ++ ms) w ≡ none)
      → (w' : W) × (remove users files levels (record { full_name = path_at root ns }) w ≡ ok tt w')
        × ((ms : List Text) → there (ns ++ ms) w' ≡ none)
        × ((os : List Text) → ((ms : List Text) → os ≢ ns ++ ms) → there os w' ≡ there os w)
  unfolding RemovesAt
  remove_tree levels ns d w clean h within =
      let (w', removed, gone, shrinks, spares) = remove_at levels ns d w clean h within in
      (w', removed, gone, spares)

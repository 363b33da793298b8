-- ===== src/Tests/Links.antt =====
-- A directory with a link; the state of the system is the list of what has been deleted.
use okssystem.Prelude.{
  ◌≡◌, refl, some, none, true, arith, Bool-cases, inl, inr, List, [], ◌∷◌, if◌then◌else◌, ℕ, Text,
  codes, text_eq, stack_overflow, err, ◌>>◌,
}
use okssystem.Calls.{done, Stat, FileCalls}
use okssystem.File.Names.{starts_with_slash}
use okssystem.File.Object.{File}
use okssystem.File.Directories.{remove, remove_children, rmdir}
use okssystem.File.Directories.Links.{IsDirectory, entry_files, remove_follows, remove_loops}
use okssystem.Tests.World.{World, bare_users, bare_files}

abbrev status : ℕ → Stat
status mode = record { st_mode = mode; st_size = 10; st_uid = 7; st_gid = 7 }

abbrev run_dir : File
run_dir = record { full_name = codes "/run" }

abbrev entries : List Text
entries = codes "." ∷ codes ".." ∷ codes "link" ∷ codes "log" ∷ []

-- The argument is what the link points to.
abbrev linked : Text → FileCalls World
linked target = record bare_files {
  stat = λ p w. done (status (if text_eq p (codes "/run") then 0o40755 else 0o100644));
  realpath = λ p w.
      if text_eq p (codes "/run/link")
      then some target
      else if starts_with_slash p
      then some p
      else none;
  opendir = λ p w. done entries;
  unlink = λ p w. (done tt, p ∷ w);
}

linked_absolute :
    (target p q : Text)
    → starts_with_slash target ≡ true
    → (linked target).realpath p [] ≡ some q
    → starts_with_slash q ≡ true
linked_absolute target p q h e = elim (Bool-cases (text_eq p (codes "/run/link"))) [
  | inl link ↦ let same : target ≡ q = ground (arith, link, e) in rw (← same) h
  | inr other ↦ elim (Bool-cases (starts_with_slash p)) [
    | inl long ↦ let same : p ≡ q = ground (arith, other, long, e) in rw (← same) long
    | inr short ↦ absurd (let k = rw (other, short) at e in cc)
  ]
]

run_dir-IsDirectory :
    (target : Text)
    → starts_with_slash target ≡ true
    → IsDirectory bare_users (linked target) run_dir entries []
run_dir-IsDirectory target h = record {
  absolute = refl;
  real_absolute = λ p q e. linked_absolute target p q h e;
  st = status 0o40755;
  has_status = refl;
  has_mode = refl;
  opens = refl;
  closes = refl;
}

remove_follows_example :
    remove bare_users (linked (codes "/etc/motd")) 5 run_dir []
    ≡ (do
      remove_children bare_users
          (linked (codes "/etc/motd"))
          (remove bare_users (linked (codes "/etc/motd")) 4)
          (entry_files bare_users (linked (codes "/etc/motd")) (codes "/run") (codes "log" ∷ []) [])
      rmdir bare_users (linked (codes "/etc/motd")) run_dir)
        (codes "/etc/motd" ∷ [])
remove_follows_example =
    remove_follows bare_users (linked (codes "/etc/motd")) run_dir (codes "." ∷ codes ".." ∷ [])
      (codes "link") (codes "log" ∷ []) [] (run_dir-IsDirectory (codes "/etc/motd") refl)
      (refl, (refl, tt)) refl 3 (codes "/etc/motd") (status 0o100644) (codes "/etc/motd" ∷ []) refl
      refl refl refl refl refl

remove_loops_example :
    remove bare_users (linked (codes "/run")) 100 run_dir [] ≡ err stack_overflow []
remove_loops_example =
    remove_loops bare_users (linked (codes "/run")) run_dir (codes "." ∷ codes ".." ∷ [])
      (codes "link") (codes "log" ∷ []) [] (run_dir-IsDirectory (codes "/run") refl)
      (refl, (refl, tt)) refl 100 refl refl

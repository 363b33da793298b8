-- ===== src/Tests/Variables.antt =====
-- The theorem on variables, at an environment that is a list of settings.
use okssystem.Prelude.{
  Lacks, ◌≡◌, ◌≢◌, refl, sym, arith, false, Bool-cases, inl, inr, if◌then◌else◌, Option, none, some,
  List, [], ◌∷◌, All, Text, codes, text_eq, text_eq-eq, text_eq_refl,
}
use okssystem.Calls.{done, EnvironmentCalls}
use okssystem.StringMemoryArea.{c_str}
use okssystem.Environment.{set, set_all, get}
use okssystem.Environment.Variables.{IsEnvironment, get-set_all}

abbrev Settings : Type 0
Settings = List (Text × Text)

abbrev look : Text → Settings → Option Text
look key [] = none
look key ((k, v) ∷ settings) = if text_eq key k then some v else look key settings

abbrev variables : EnvironmentCalls Settings
variables = record { setenv = λ k v w. (done tt, (k, v) ∷ w); getenv = look }

other_differs : (k l : Text) → k ≢ l → text_eq l k ≡ false
other_differs k l ne = elim (Bool-cases (text_eq l k)) [
  | inl e ↦ absurd (ne (sym (text_eq-eq l k e)))
  | inr e ↦ e
]

variables-IsEnvironment : IsEnvironment variables
variables-IsEnvironment = record {
  get_set = λ k v w e. rw (text_eq_refl k) refl;
  get_other = λ k l v w ne. rw (other_differs k l ne) refl;
}

abbrev wanted : Settings
wanted = (codes "HOME", codes "/root") ∷ (codes "TERM", codes "xterm") ∷ []

abbrev reached : Settings
reached = (codes "TERM", codes "xterm") ∷ (codes "HOME", codes "/root") ∷ []

get-set_all_example :
    All (λ e. get variables e.0 reached ≡ e.1) wanted
    × ((other : Text)
        → Lacks 0 other
        → All (λ e. e.0 ≢ other) wanted
        → get variables other reached ≡ get variables other [])
unfolding set_all set c_str
get-set_all_example =
    get-set_all variables variables-IsEnvironment wanted [] reached (ground arith) (ground arith)
      refl

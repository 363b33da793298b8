-- ===== src/Environment.antt =====
-- src/Environment.cpp: the variables of the environment.
pub mod Variables
use okssystem.Prelude.{
  Option, none, some, List, [], ◌∷◌, ◌++◌, Text, codes, Issue, oks_system_call_issue, M, Out, ok,
  err, pure, ◌>>=◌, ◌>>◌,
}
use okssystem.Calls.{EnvironmentCalls, checked}
use okssystem.StringMemoryArea.{c_str}

module _ {W : Type 0} (environment : EnvironmentCalls W) where
  -- `set(key, value)`: the calls take C strings.
  unfoldable pub set : Text → Text → M W (Unit {0})
  unfolding c_str
  set key value w = checked (environment.setenv (c_str key) (c_str value) w) (λ errno.
      oks_system_call_issue errno (codes "setenv")
        (codes "while setting " ++ (key ++ (codes " to " ++ value))))

  -- `set(values)`: the entries of the map in its order.
  unfoldable pub set_all : List (Text × Text) → M W (Unit {0})
  unfolding set
  set_all [] = pure tt
  set_all ((key, value) ∷ values) = set key value >> set_all values

  unfoldable pub get : Text → W → Text
  unfolding c_str
  get key w = elim (environment.getenv (c_str key) w) [ none ↦ [] | some c_value ↦ c_value ]

-- ===== src/Environment/Variables.antt =====
-- What is set can be read, and the other variables keep their values.
use okssystem.Prelude.{
  ◌≡◌, ◌≢◌, ◌∙◌, some, List, [], ◌∷◌, arith, All, Text, Lacks, ok, bind_out-eq-ok,
}
use okssystem.Calls.{done, EnvironmentCalls}
use okssystem.StringMemoryArea.Memory.{c_str_of_Lacks}
use okssystem.StringMemoryArea.{c_str}
use okssystem.Environment.{set, set_all, get}

-- What `set` relies on: a `setenv` that succeeds makes its value the one that `getenv` gives, and
-- leaves the other variables alone.
pub record IsEnvironment {W : Type 0} (environment : EnvironmentCalls W) : Type 0 where
  pub get_set :
      (k v : Text) (w : W)
      → (environment.setenv k v w).0 ≡ done tt
      → environment.getenv k (environment.setenv k v w).1 ≡ some v
  pub get_other :
      (k l v : Text) (w : W)
      → k ≢ l
      → environment.getenv l (environment.setenv k v w).1 ≡ environment.getenv l w

-- Texts that are C strings.
abbrev pub IsPlain : Text × Text → Type 0
IsPlain (k, v) = Lacks 0 k × Lacks 0 v

-- No key stands twice.
abbrev pub IsMap : List (Text × Text) → Type 0
IsMap [] = Unit
IsMap (entry ∷ values) = All (λ e. e.0 ≢ entry.0) values × IsMap values

module _ {W : Type 0} (environment : EnvironmentCalls W) (laws : IsEnvironment environment) where
  get-set :
      (key value : Text) (w w' : W)
      → Lacks 0 key
      → Lacks 0 value
      → set environment key value w ≡ ok tt w'
      → get environment key w' ≡ value
  unfolding set get
  get-set key value w w' hk hv h =
      let k = c_str_of_Lacks key hk in
      let v = c_str_of_Lacks value hv in
      ground (arith, k, v, laws.get_set (c_str key) (c_str value) w)

  get-set_other :
      (key other value : Text) (w w' : W)
      → Lacks 0 key
      → Lacks 0 other
      → key ≢ other
      → set environment key value w ≡ ok tt w'
      → get environment other w' ≡ get environment other w
  unfolding set get
  get-set_other key other value w w' hk ho ne h =
      let k = c_str_of_Lacks key hk in
      let o = c_str_of_Lacks other ho in
      ground (arith, k, o, laws.get_other key other (c_str value) w ne)

  get-set_all_other :
      (other : Text) (values : List (Text × Text)) (w w' : W)
      → Lacks 0 other
      → All IsPlain values
      → All (λ e. e.0 ≢ other) values
      → set_all environment values w ≡ ok tt w'
      → get environment other w' ≡ get environment other w
  unfolding set_all
  get-set_all_other other [] w w' ho plain hn h = ground arith
  get-set_all_other other ((key, value) ∷ values) w w' ho ((hk, hv), plain) (ne, hn) h =
      let (u, v, first, rest) = bind_out-eq-ok (set environment key value w) _ h in
      get-set_all_other other values v w' ho plain hn rest
      ∙ get-set_other key other value w v hk ho ne first

  get-set_all_keys :
      (values : List (Text × Text)) (w w' : W)
      → All IsPlain values
      → IsMap values
      → set_all environment values w ≡ ok tt w'
      → All (λ e. get environment e.0 w' ≡ e.1) values
  unfolding set_all
  get-set_all_keys [] w w' plain hm h = tt
  get-set_all_keys ((key, value) ∷ values) w w' ((hk, hv), plain) (hn, hm) h =
      let (u, v, first, rest) = bind_out-eq-ok (set environment key value w) _ h in
      (
        get-set_all_other key values v w' hk plain hn rest ∙ get-set key value w v hk hv first,
        get-set_all_keys values v w' plain hm rest,
      )

  -- In an environment as `IsEnvironment` describes it: if `set` of a map of C strings, in which no
  -- key stands twice, returns, then `get` gives the value of every key of the map, and for every
  -- other C string what it gave before.
  pub get-set_all :
      (values : List (Text × Text)) (w w' : W)
      → All IsPlain values
      → IsMap values
      → set_all environment values w ≡ ok tt w'
      → All (λ e. get environment e.0 w' ≡ e.1) values
        × ((other : Text)
            → Lacks 0 other
            → All (λ e. e.0 ≢ other) values
            → get environment other w' ≡ get environment other w)
  get-set_all values w w' plain hm h = (
    get-set_all_keys values w w' plain hm h,
    λ other ho hn. get-set_all_other other values w w' ho plain hn h,
  )

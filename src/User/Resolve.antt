-- ===== src/User/Resolve.antt =====
-- The look-ups of a user: what they fill in, and when they fail.
use okssystem.Prelude.{
  ℕ, ◌≡◌, ◌≢◌, ◌⊎◌, inl, inr, refl, true, false, Option, none, some, [], ◌∷◌, arith, Bool-cases,
  Option-cases, Text, is_empty, Issue, ok, err, codes, oks_system_call_issue, Out-cases, decimal,
  ◌++◌,
}
use okssystem.Calls.{
  Answer-cases, done, failed, Passwd, PwAnswer, found, not_found, pw_error, UserCalls,
}
use okssystem.User.{User, fill, resolve, resolve_safe, unknown_user, home, name_safe, buffer_size}

is_empty-nil : (s : Text) → is_empty s ≡ true → s ≡ []
is_empty-nil [] h = refl
is_empty-nil (x ∷ s) h = cc

nil-is_empty : (s : Text) → is_empty s ≡ false → s ≢ []
nil-is_empty [] h z = cc
nil-is_empty (x ∷ s) h z = cc

abbrev entry : PwAnswer → Option Passwd
entry (found p) = some p
entry (not_found errno) = none
entry (pw_error res) = none

PwAnswer-cases :
    (a : PwAnswer)
    → ((p : Passwd) × (a ≡ found p))
      ⊎ (((errno : ℕ) × (a ≡ not_found errno)) ⊎ ((res : ℕ) × (a ≡ pw_error res)))
PwAnswer-cases (found p) = inl (p, refl)
PwAnswer-cases (not_found errno) = inr (inl (errno, refl))
PwAnswer-cases (pw_error res) = inr (inr (res, refl))

module _ {W : Type 0} (calls : UserCalls W) where
  -- The entry of the user database behind an identifier, if it can be looked up.
  unfoldable pub look_up : ℕ → W → Option Passwd
  look_up id w = elim (calls.sysconf w) [
    | done (some size) ↦ entry (calls.getpwuid_r id size w)
    | done none ↦ entry (calls.getpwuid_r id 1024 w)
    | failed errno ↦ none
  ]

  resolve_found :
      (user : User) (w : W) (p : Passwd)
      → look_up user.user_id w ≡ some p
      → resolve calls user w ≡ ok (fill user p) w
  unfolding look_up resolve
  resolve_found user w p h = ground arith

  resolve_missing :
      (user : User) (w : W)
      → look_up user.user_id w ≡ none
      → (e : Issue) × (resolve calls user w ≡ err e w)
  unfolding look_up resolve
  resolve_missing user w h = elim (Out-cases (resolve calls user w)) [
    | inl (u, s, e) ↦ absurd (ground arith)
    | inr (issue, s, e) ↦ (issue, ground arith)
  ]

  -- `resolve` fills in the fields by the entry that the look-up gives, and throws without one.
  pub resolve_outcome :
      (user : User) (w : W)
      → ((p : Passwd) × (look_up user.user_id w ≡ some p)
          × (resolve calls user w ≡ ok (fill user p) w))
        ⊎ ((e : Issue) × (look_up user.user_id w ≡ none) × (resolve calls user w ≡ err e w))
  resolve_outcome user w = elim (Option-cases (look_up user.user_id w)) [
    | inl e ↦ let (issue, thrown) = resolve_missing user w e in inr (issue, e, thrown)
    | inr (p, e) ↦ inl (p, e, resolve_found user w p e)
  ]

  resolve_safe_lem :
      (user : User) (w : W)
      → resolve_safe calls user w
        ≡ elim (look_up user.user_id w) [ none ↦ unknown_user user | some p ↦ fill user p ]
  unfolding look_up resolve_safe
  resolve_safe_lem user w = ground arith

  -- The size of the buffer for a look-up: the one that the system suggests, or 1024 bytes.
  abbrev pub HasBuffer : ℕ → W → Type 0
  HasBuffer size w =
      (calls.sysconf w ≡ done (some size)) ⊎ ((calls.sysconf w ≡ done none) × (size ≡ 1024))

  -- `resolve` throws a failed call of this function with this error code, and `resolve_safe` sets the
  -- three fields to "unknown".
  abbrev pub Fails : User → W → ℕ → Text → Type 0
  Fails user w error function =
      ((action : Text) × (resolve calls user w
          ≡ err (oks_system_call_issue error function action) w))
      × (resolve_safe calls user w ≡ record {
        user_id = user.user_id;
        user_name = codes "unknown";
        user_home = codes "unknown";
        user_real_name = codes "unknown";
      })

  -- Both give the user with the name, the home directory and the real name of this entry.
  abbrev pub Fills : User → W → Passwd → Type 0
  Fills user w p =
      let filled : User = record {
        user_id = user.user_id;
        user_name = p.pw_name;
        user_home = p.pw_dir;
        user_real_name = p.pw_gecos;
      } in
      (resolve calls user w ≡ ok filled w) × (resolve_safe calls user w ≡ filled)

  answered :
      (user : User) (w : W) (size : ℕ)
      → HasBuffer size w
      → ((p : Passwd) × (calls.getpwuid_r user.user_id size w ≡ found p) × Fills user w p)
        ⊎ (((errno : ℕ) × (calls.getpwuid_r user.user_id size w ≡ not_found errno)
              × Fails user w errno (codes "getpwuid_r"))
            ⊎ ((res : ℕ) × (calls.getpwuid_r user.user_id size w ≡ pw_error res)
                × Fails user w res (codes "getpwnam_r")))
  unfolding resolve resolve_safe buffer_size
  answered user w size buffer = elim (PwAnswer-cases (calls.getpwuid_r user.user_id size w)) [
    | inl (p, e) ↦ inl (p, e, (ground (arith, e, buffer), ground (arith, e, buffer)))
    | inr (inl (errno, e)) ↦ inr (
        inl (
          errno,
          e,
          (
            (
              codes "User " ++ (decimal user.user_id ++ codes " not found"),
              ground (arith, e, buffer),
            ),
            ground (arith, e, buffer),
          ),
        ))
    | inr (inr (res, e)) ↦ inr (
        inr (
          res,
          e,
          (
            (
              codes "while getting info about user with id " ++ decimal user.user_id,
              ground (arith, e, buffer),
            ),
            ground (arith, e, buffer),
          ),
        ))
  ]

  -- With a buffer of the size that the system suggests, or of 1024 bytes if it suggests none, the
  -- entry of the user database is looked up by the identifier. If there is one, `resolve` and
  -- `resolve_safe` fill in its name, home directory and real name. If there is none, `resolve` throws
  -- with the error code that the call left; if the look-up fails, with the code that the call gave,
  -- under the name of `getpwnam_r`; if `sysconf` fails, with the code of that. In these cases
  -- `resolve_safe` sets the three fields to "unknown". Neither changes the system or the identifier.
  pub resolve-resolve_safe :
      (user : User) (w : W)
      → ((size : ℕ) × HasBuffer size w
          × (((p : Passwd) × (calls.getpwuid_r user.user_id size w ≡ found p) × Fills user w p)
              ⊎ (((errno : ℕ) × (calls.getpwuid_r user.user_id size w ≡ not_found errno)
                    × Fails user w errno (codes "getpwuid_r"))
                  ⊎ ((res : ℕ) × (calls.getpwuid_r user.user_id size w ≡ pw_error res)
                      × Fails user w res (codes "getpwnam_r")))))
        ⊎ ((errno : ℕ) × (calls.sysconf w ≡ failed errno) × Fails user w errno (codes "sysconf"))
  unfolding resolve resolve_safe buffer_size
  resolve-resolve_safe user w = elim (Answer-cases (calls.sysconf w)) [
    | inl (some size, e) ↦ inl (size, inl e, answered user w size (inl e))
    | inl (none, e) ↦ inl (1024, inr (e, refl), answered user w 1024 (inr (e, refl)))
    | inr (errno, e) ↦ inr (
      errno,
      e,
      (
        (
          codes "with argument _SC_GETPW_R_SIZE_MAX while getting info about user "
              ++ (codes "with id " ++ decimal user.user_id),
          ground (arith, e),
        ),
        ground (arith, e),
      ),
    )
  ]

  -- What `home` has found once it gives again, whatever has become of the user database.
  pub home_again :
      (user u : User) (w v w' : W)
      → home calls user w ≡ ok u v
      → u.user_home ≢ []
      → home calls u w' ≡ ok u w'
  unfolding home
  home_again user u w v w' h filled = elim (Bool-cases (is_empty u.user_home)) [
    | inl e ↦ absurd (filled (is_empty-nil u.user_home e))
    | inr e ↦ rw e
  ]

  -- `name_safe` gives some name, also where the look-up fails, unless the database has an entry with
  -- an empty name.
  pub name_safe-ne-nil :
      (user : User) (w : W)
      → ((p : Passwd) → look_up user.user_id w ≡ some p → p.pw_name ≢ [])
      → (name_safe calls user w).user_name ≢ []
  unfolding name_safe
  name_safe-ne-nil user w named = elim (Bool-cases (is_empty user.user_name)) [
    | inr e ↦ rw e (nil-is_empty user.user_name e)
    | inl e ↦ elim (Option-cases (look_up user.user_id w)) [
      | inl missing ↦ rw (e, resolve_safe_lem user w, missing) (cc)
      | inr (p, found_it) ↦ rw (e, resolve_safe_lem user w, found_it) (named p found_it)
    ]
  ]

-- ===== src/User.antt =====
-- src/User.cpp: users, with the fields that are looked up when they are first asked for. A method
-- that fills in the mutable fields returns the object that it leaves.
pub mod Resolve
use okssystem.StringMemoryArea.{c_str}
use okssystem.Prelude.{
  ℕ, ◌+◌, Bool, true, false, Option, none, some, [], ◌∷◌, ◌++◌, ◌==◌, not, if◌then◌else◌, Text,
  codes, is_empty, decimal, Issue, oks_system_call_issue, M, Out, ok, err, pure, throw, ◌>>=◌,
}
use okssystem.Calls.{Answer, done, failed, Passwd, PwAnswer, found, not_found, pw_error, UserCalls}

pub record User : Type 0 where
  pub user_id : ℕ
  pub user_name : Text
  pub user_home : Text
  pub user_real_name : Text

-- `User(uid_t)`
abbrev pub of_uid : ℕ → User
of_uid id = record { user_id = id; user_name = []; user_home = []; user_real_name = [] }

-- `User::ROOT`
abbrev pub root : User
root = of_uid 0

abbrev pub unknown : Text
unknown = codes "unknown"

-- The fields that an entry of the user database gives.
abbrev pub fill : User → Passwd → User
fill user p = record user {
  user_name = p.pw_name;
  user_home = p.pw_dir;
  user_real_name = p.pw_gecos;
}

abbrev pub unknown_user : User → User
unknown_user user = record user {
  user_name = unknown;
  user_home = unknown;
  user_real_name = unknown;
}

abbrev safe_fill : User → PwAnswer → User
safe_fill user (found p) = fill user p
safe_fill user (not_found errno) = unknown_user user
safe_fill user (pw_error res) = unknown_user user

-- `User(const User &)`, which leaves the home directory and the real name to be looked up again
abbrev pub copy_user : User → User
copy_user other = record (of_uid other.user_id) { user_name = other.user_name }

module _ {W : Type 0} (calls : UserCalls W) where
  -- `User()`
  unfoldable pub current_user : W → User
  current_user w = of_uid (calls.getuid w)

  -- The size of the buffer; the argument is what the issue says.
  unfoldable pub buffer_size : Text → M W ℕ
  buffer_size message w = elim (calls.sysconf w) [
    | done (some size) ↦ ok size w
    | done none ↦ ok 1024 w
    | failed errno ↦
        err
          (oks_system_call_issue errno (codes "sysconf")
            (codes "with argument _SC_GETPW_R_SIZE_MAX while getting info about user " ++ message))
          w
  ]

  -- `User(const std::string&)`
  unfoldable pub of_name : Text → M W User
  unfolding buffer_size
  of_name s_name w =
      (do
        size ← buffer_size s_name
        λ w. elim (calls.getpwnam_r s_name size w) [
          | found p ↦ ok (record (of_uid p.pw_uid) { user_name = s_name }) w
          | not_found errno ↦
              err
                (oks_system_call_issue errno (codes "getpwnam_r")
                  (codes "User " ++ (s_name ++ codes " not found")))
                w
          | pw_error res ↦
              err
                (oks_system_call_issue res (codes "getpwnam_r")
                  (codes "while getting info about user " ++ s_name))
                w
        ])
        w

  -- `resolve`: a failed look-up names another function than the one that it called.
  unfoldable pub resolve : User → M W User
  unfolding buffer_size
  resolve user w =
      (do
        size ← buffer_size (codes "with id " ++ decimal user.user_id)
        λ w. elim (calls.getpwuid_r user.user_id size w) [
          | found p ↦ ok (fill user p) w
          | not_found errno ↦
              err
                (oks_system_call_issue errno (codes "getpwuid_r")
                  (codes "User " ++ (decimal user.user_id ++ codes " not found")))
                w
          | pw_error res ↦
              err
                (oks_system_call_issue res (codes "getpwnam_r")
                  (codes "while getting info about user with id " ++ decimal user.user_id))
                w
        ])
        w

  unfoldable pub resolve_safe : User → W → User
  resolve_safe user w = elim (calls.sysconf w) [
    | done (some size) ↦ safe_fill user (calls.getpwuid_r user.user_id size w)
    | done none ↦ safe_fill user (calls.getpwuid_r user.user_id 1024 w)
    | failed errno ↦ unknown_user user
  ]

  -- The object behind `name`, `home` and `real_name`: what they return is its field.
  unfoldable pub name : User → M W User
  unfolding resolve
  name user = if is_empty user.user_name then resolve user else pure user

  -- The conversion to `const char *`: the object, and the text that the pointer shows.
  unfoldable pub user_c_str : User → M W (User × Text)
  unfolding resolve c_str
  user_c_str user = do
    named ← if is_empty user.user_name then resolve user else pure user
    pure (named, c_str named.user_name)

  unfoldable pub home : User → M W User
  unfolding resolve
  home user = if is_empty user.user_home then resolve user else pure user

  unfoldable pub real_name : User → M W User
  unfolding resolve
  real_name user = if is_empty user.user_real_name then resolve user else pure user

  unfoldable pub name_safe : User → W → User
  unfolding resolve_safe
  name_safe user w = if is_empty user.user_name then resolve_safe user w else user

  -- `User::setuid`
  unfoldable pub set_user : User → M W (Unit {0})
  unfolding name_safe
  set_user user w =
      let (answer, w') = calls.setuid user.user_id w in
      elim answer [
        | done a ↦ ok tt w'
        | failed errno ↦
            err
              (oks_system_call_issue errno (codes "setuid") (
                codes "while setting the effective user ID to "
                ++ (decimal user.user_id ++ (b'(' ∷ ((name_safe user w').user_name ++ b')' ∷ [])))))
              w'
      ]

  -- `operator<<`
  unfoldable pub user_string : User → W → Text
  unfolding name_safe
  user_string user w = (name_safe user w).user_name ++ (b'(' ∷ (decimal user.user_id ++ b')' ∷ []))

-- `operator==`
abbrev pub same_user : User → User → Bool
same_user a b = a.user_id == b.user_id

-- `operator!=`
abbrev pub not_same_user : User → User → Bool
not_same_user a b = not (a.user_id == b.user_id)

-- ===== src/Tests/Users.antt =====
-- The theorems on users, in the small system.
use okssystem.Prelude.{ℕ, ◌≡◌, ◌⊎◌, [], codes}
use okssystem.Calls.{failed, Passwd, found, not_found, pw_error}
use okssystem.User.{of_uid}
use okssystem.User.Resolve.{HasBuffer, Fills, Fails, resolve-resolve_safe}
use okssystem.Tests.World.{users}

resolve-resolve_safe_example :
    ((size : ℕ) × HasBuffer users size []
      × (((p : Passwd) × (users.getpwuid_r 7 size [] ≡ found p) × Fills users (of_uid 7) [] p)
          ⊎ (((errno : ℕ) × (users.getpwuid_r 7 size [] ≡ not_found errno)
                × Fails users (of_uid 7) [] errno (codes "getpwuid_r"))
              ⊎ ((res : ℕ) × (users.getpwuid_r 7 size [] ≡ pw_error res)
                  × Fails users (of_uid 7) [] res (codes "getpwnam_r")))))
    ⊎ ((errno : ℕ) × (users.sysconf [] ≡ failed errno)
        × Fails users (of_uid 7) [] errno (codes "sysconf"))
resolve-resolve_safe_example = resolve-resolve_safe users (of_uid 7) []

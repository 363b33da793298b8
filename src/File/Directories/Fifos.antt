-- ===== src/File/Directories/Fifos.antt =====
-- What `make_fifo` leaves behind if it returns.
use okssystem.Prelude.{ℕ, ◌%◌, ◌<◌, ◌≡◌, inl, inr, ◌∙◌, Bool-cases, true, ◌==◌, arith, Text, ok}
use okssystem.Calls.{Answer-cases, done, Stat, UserCalls, FileCalls}
use okssystem.File.Object.{File, exists, permissions, is_fifo, get_mode, file_status, mode_is_fifo}
use okssystem.File.Directories.{set_permissions, make_new_fifo, make_fifo}

-- `mkfifo` makes a named pipe where it succeeds; a `chmod` that succeeds on an existing file sets its
-- twelve permission bits, and a named pipe stays one.
pub record MakesFifos {W : Type 0} (files : FileCalls W) : Type 0 where
  pub mkfifo_makes :
      (p : Text) (m : ℕ) (w : W)
      → (files.mkfifo p m w).0 ≡ done tt
      → (st : Stat) × (files.stat p (files.mkfifo p m w).1 ≡ done st)
        × (mode_is_fifo st.st_mode ≡ true)
  pub chmod_sets :
      (p : Text) (m : ℕ) (w : W) (st : Stat)
      → m < 4096
      → files.stat p w ≡ done st
      → (files.chmod p m w).0 ≡ done tt
      → (st' : Stat) × (files.stat p (files.chmod p m w).1 ≡ done st')
        × (st'.st_mode % 4096 ≡ m)
        × (mode_is_fifo st'.st_mode ≡ mode_is_fifo st.st_mode)

module _ {W : Type 0} (users : UserCalls W) (files : FileCalls W) (laws : MakesFifos files) where
  -- A named pipe with these permissions stands there.
  FifoWith : File → ℕ → W → Type 0
  FifoWith f perm w =
      (is_fifo users files f w ≡ ok true w) × (permissions users files f w ≡ ok perm w)

  status-FifoWith :
      (f : File) (perm : ℕ) (st : Stat) (w : W)
      → files.stat f.full_name w ≡ done st
      → st.st_mode % 4096 ≡ perm
      → mode_is_fifo st.st_mode ≡ true
      → FifoWith f perm w
  unfolding FifoWith is_fifo permissions get_mode file_status
  status-FifoWith f perm st w e same fifo = (ground (arith, e, fifo), ground (arith, e, same))

  set_permissions-FifoWith :
      (f : File) (perm : ℕ) (st : Stat) (w w' : W)
      → perm < 4096
      → files.stat f.full_name w ≡ done st
      → mode_is_fifo st.st_mode ≡ true
      → set_permissions users files f perm w ≡ ok tt w'
      → FifoWith f perm w'
  unfolding set_permissions permissions get_mode file_status
  set_permissions-FifoWith f perm st w w' small e fifo h =
      elim (Bool-cases (perm == st.st_mode % 4096)) [
        | inl same ↦
            let here : w' ≡ w = ground (arith, e, same, h) in
            rw here (status-FifoWith f perm st w e (ground (arith, same)) fifo)
        | inr other ↦
            let w1 = (files.chmod f.full_name perm w).1 in
            elim (Answer-cases (files.chmod f.full_name perm w).0) [
              | inr (errno, c) ↦ absurd (ground (arith, e, other, c, h))
              | inl (u, c) ↦
                  let (st', there, set, kept) = laws.chmod_sets f.full_name perm w st small e c in
                  let here : w' ≡ w1 = ground (arith, e, other, c, h) in
                  rw here (status-FifoWith f perm st' w1 there set (kept ∙ fifo))
            ]
      ]

  make_new_fifo-FifoWith :
      (f : File) (perm : ℕ) (w w' : W)
      → perm < 4096
      → make_new_fifo users files f perm w ≡ ok tt w'
      → FifoWith f perm w'
  unfolding make_new_fifo
  make_new_fifo-FifoWith f perm w w' small h =
      let w1 = (files.mkfifo f.full_name perm w).1 in
      elim (Answer-cases (files.mkfifo f.full_name perm w).0) [
        | inr (errno, e) ↦ absurd (ground (arith, e, h))
        | inl (u, e) ↦
            let (st, there, fifo) = laws.mkfifo_makes f.full_name perm w e in
            set_permissions-FifoWith f perm st w1 w' small there fifo (ground (arith, e, h))
      ]

  -- On a file system as `MakesFifos` describes it: if `make_fifo` returns, the file is a named pipe
  -- with the permissions that are asked for, whether it was made, was there before, or stood there
  -- with other permissions; what is no named pipe is not taken for one.
  pub make_fifo-eq-ok :
      (f : File) (perm : ℕ) (w w' : W)
      → perm < 4096
      → make_fifo users files f perm w ≡ ok tt w'
      → (is_fifo users files f w' ≡ ok true w') × (permissions users files f w' ≡ ok perm w')
  unfolding make_fifo FifoWith exists is_fifo permissions get_mode file_status
  make_fifo-eq-ok f perm w w' small h = elim (Answer-cases (files.stat f.full_name w)) [
    | inr (errno, e) ↦ make_new_fifo-FifoWith f perm w w' small (ground (arith, e, h))
    | inl (st, e) ↦ elim (Bool-cases (mode_is_fifo st.st_mode)) [
      | inr other ↦ make_new_fifo-FifoWith f perm w w' small (ground (arith, e, other, h))
      | inl fifo ↦ elim (Bool-cases (perm == st.st_mode % 4096)) [
        | inl same ↦
            let here : w' ≡ w = ground (arith, e, fifo, same, h) in
            rw here (status-FifoWith f perm st w e (ground (arith, same)) fifo)
        | inr differs ↦
            set_permissions-FifoWith f perm st w w' small e fifo
              (ground (arith, e, fifo, differs, h))
      ]
    ]
  ]

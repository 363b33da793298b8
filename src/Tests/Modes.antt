-- ===== src/Tests/Modes.antt =====
-- One file, whose mode is the state: 0 if it is not there. `mkdir` and `mkfifo` leave out the bits
-- of a file mode creation mask.
use okssystem.Prelude.{
  refl, ok, true, Bool-cases, inl, inr, ℕ, ◌+◌, ◌%◌, ◌<◌, ◌==◌, ◌≡◌, ◌⊎◌, arith, if◌then◌else◌,
  Text, codes,
}
use okssystem.Calls.{done, failed, Stat, FileCalls}
use okssystem.File.Object.{File, is_fifo, exists, permissions, mode_is_fifo}
use okssystem.File.Directories.{make_fifo, make_new_fifo, set_permissions}
use okssystem.File.Directories.Fifos.{MakesFifos, make_fifo-eq-ok}
use okssystem.File.Directories.Modes.{
  IsModes, MakeDirSets, MakeDirPasses, MakeDirThrows, make_dir_outcome,
}
use okssystem.Tests.World.{bare_users, bare_files}

abbrev status : ℕ → Stat
status mode = record { st_mode = mode; st_size = 0; st_uid = 7; st_gid = 7 }

abbrev masked : FileCalls ℕ
masked = record bare_files {
  stat = λ p mode. if mode == 0 then failed 2 else done (status mode);
  mkdir = λ p m mode. if mode == 0 then (done tt, 0o40750) else (failed 17, mode);
  chmod = λ p m mode. (done tt, (if mode_is_fifo mode then 0o10000 else 0o40000) + m);
  mkfifo = λ p m mode. if mode == 0 then (done tt, 0o10640) else (failed 17, mode);
}

sets :
    (p : Text) (m : ℕ) (w : ℕ)
    → m < 4096
    → (masked.chmod p m w).0 ≡ done tt
    → (st : Stat) × (masked.stat p (masked.chmod p m w).1 ≡ done st) × (st.st_mode % 4096 ≡ m)
sets p m w small h = elim (Bool-cases (mode_is_fifo w)) [
  | inl e ↦ (status (0o10000 + m), ground (arith, e), omega arith)
  | inr e ↦ (status (0o40000 + m), ground (arith, e), omega arith)
]

masked-IsModes : IsModes masked
masked-IsModes = record { chmod_sets = sets }

abbrev data_dir : File
data_dir = record { full_name = codes "/data" }

make_dir_outcome_example :
    MakeDirSets bare_users masked masked-IsModes data_dir 0o777 0
    ⊎ MakeDirPasses bare_users masked masked-IsModes data_dir 0o777 0
    ⊎ MakeDirThrows bare_users masked masked-IsModes data_dir 0o777 0
make_dir_outcome_example =
    make_dir_outcome bare_users masked masked-IsModes data_dir 0o777 0 (omega arith)

mkfifo_makes :
    (p : Text) (m : ℕ) (w : ℕ)
    → (masked.mkfifo p m w).0 ≡ done tt
    → (st : Stat) × (masked.stat p (masked.mkfifo p m w).1 ≡ done st)
      × (mode_is_fifo st.st_mode ≡ true)
mkfifo_makes p m w h = elim (Bool-cases (w == 0)) [
  | inl e ↦ (status 0o10640, ground (arith, e), refl)
  | inr e ↦ absurd (ground (arith, e, h))
]

chmod_sets :
    (p : Text) (m : ℕ) (w : ℕ) (st : Stat)
    → m < 4096
    → masked.stat p w ≡ done st
    → (masked.chmod p m w).0 ≡ done tt
    → (st' : Stat) × (masked.stat p (masked.chmod p m w).1 ≡ done st')
      × (st'.st_mode % 4096 ≡ m)
      × (mode_is_fifo st'.st_mode ≡ mode_is_fifo st.st_mode)
chmod_sets p m w st small there h =
    let same : st.st_mode ≡ w = ground (arith, there) in
    elim (Bool-cases (mode_is_fifo w)) [
      | inl e ↦
          (status (0o10000 + m), ground (arith, e), omega arith, ground (arith, e, same, small))
      | inr e ↦
          (status (0o40000 + m), ground (arith, e), omega arith, ground (arith, e, same, small))
    ]

masked-MakesFifos : MakesFifos masked
masked-MakesFifos = record { mkfifo_makes = mkfifo_makes; chmod_sets = chmod_sets }

make_fifo-eq-ok_example :
    (is_fifo bare_users masked data_dir 0o10777 ≡ ok true 0o10777)
    × (permissions bare_users masked data_dir 0o10777 ≡ ok 0o777 0o10777)
unfolding make_fifo make_new_fifo set_permissions exists is_fifo permissions
make_fifo-eq-ok_example =
    make_fifo-eq-ok bare_users masked masked-MakesFifos data_dir 0o777 0 0o10777 (omega arith) refl

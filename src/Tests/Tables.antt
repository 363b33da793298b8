-- ===== src/Tests/Tables.antt =====
-- A system whose state is the table of open descriptors.
use okssystem.Prelude.{
  ℕ, ◌≡◌, ◌≢◌, ◌⊎◌, refl, arith, Bool, Bool-cases, inl, inr, true, false, ◌||◌, ◌==◌, List, [], ◌∷◌,
  length, Text, ℤ, pos, negsuc,
}
use okssystem.Calls.{Answer, done, failed, IoCalls}
use okssystem.Descriptor.Table.{IsTable}
use okssystem.Tests.World.{bare_io}

-- The numbers of the open descriptors.
abbrev pub Table : Type 0
Table = List ℕ

abbrev pub has_number : ℕ → Table → Bool
has_number n [] = false
has_number n (m ∷ table) = n == m || has_number n table

abbrev pub is_open : ℤ → Table → Bool
is_open (pos n) table = has_number n table
is_open (negsuc n) table = false

abbrev pub kept : Bool → ℕ → Table → Table
kept true m table = table
kept false m table = m ∷ table

abbrev pub without : ℕ → Table → Table
without n [] = []
without n (m ∷ table) = kept (n == m) m (without n table)

abbrev pub closed : ℤ → Table → Answer (Unit {0}) × Table
closed (pos n) table = (done tt, without n table)
closed (negsuc n) table = (failed 9, table)

abbrev pub io : IoCalls Table
io = record bare_io {
  mmap = λ size prot f d offset w. (done 4096, w);
  open_file = λ name flags mode w. (done (length w), length w ∷ w);
  close = closed;
}

has_number-without : (n : ℕ) (w : Table) → has_number n (without n w) ≡ false
has_number-without n [] = refl
has_number-without n (m ∷ w) = elim (Bool-cases (n == m)) [
  | inl e ↦ rw e (has_number-without n w)
  | inr e ↦ rw e (rw e (has_number-without n w))
]

without-less : (n m : ℕ) (w : Table) → has_number m (without n w) ≡ true → has_number m w ≡ true
without-less n m [] h = h
without-less n m (k ∷ w) h = ground (arith, h, without-less n m w)

opens_number :
    (name : Text) (f p : ℕ) (w : Table) (fd : ℤ)
    → is_open fd (io.open_file name f p w).1 ≡ true
    → (is_open fd w ≡ true) ⊎ ((n : ℕ) × ((io.open_file name f p w).0 ≡ done n) × (fd ≡ pos n))
opens_number name f p w (pos n) h = elim (Bool-cases (n == length w)) [
  | inl e ↦ inr (length w, refl, ground (arith, e))
  | inr e ↦ inl (ground (arith, e, h))
]
opens_number name f p w (negsuc n) h = absurd (ground (arith, h))

opens_keep_number :
    (name : Text) (f p : ℕ) (w : Table) (fd : ℤ)
    → is_open fd w ≡ true
    → is_open fd (io.open_file name f p w).1 ≡ true
opens_keep_number name f p w (pos n) h = ground (arith, h)
opens_keep_number name f p w (negsuc n) h = h

without_other :
    (n m : ℕ) (w : Table) → (m == n) ≡ false → has_number m (without n w) ≡ has_number m w
without_other n m [] h = refl
without_other n m (k ∷ w) h = ground (arith, h, without_other n m w h)

close_keeps_number :
    (fd other : ℤ) (w : Table) → other ≢ fd → is_open other (io.close fd w).1 ≡ is_open other w
close_keeps_number (pos n) (pos m) w h = without_other n m w (ground arith)
close_keeps_number (pos n) (negsuc m) w h = refl
close_keeps_number (negsuc n) other w h = refl

closes_number : (fd : ℤ) (w : Table) → is_open fd (io.close fd w).1 ≡ false
closes_number (pos n) w = has_number-without n w
closes_number (negsuc n) w = refl

close_opens_none :
    (fd other : ℤ) (w : Table) → is_open other (io.close fd w).1 ≡ true → is_open other w ≡ true
close_opens_none (pos n) (pos m) w h = without-less n m w h
close_opens_none (pos n) (negsuc m) w h = h
close_opens_none (negsuc n) other w h = h

pub io-IsTable : IsTable io is_open
io-IsTable = record {
  opens = opens_number;
  opens_keep = opens_keep_number;
  closes = closes_number;
  close_keeps = close_keeps_number;
  mmap_keeps = λ fd size prot f d offset w. refl;
  munmap_keeps = λ fd address size w. refl;
  close_opens_none = close_opens_none;
  read_keeps = λ fd other n w. refl;
  write_keeps = λ fd other b w. refl;
  usleep_keeps = λ fd n w. refl;
  warning_keeps = λ fd e w. refl;
  fchmod_keeps = λ fd other p w. refl;
}

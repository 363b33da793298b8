-- ===== src/File/Pretty/Permissions.antt =====
-- What the permission texts say of the mode, and the texts of the open flags.
use okssystem.Prelude.{
  ℕ, zero, suc, ◌<◌, ◌≢◌, ◌+◌, ◌*◌, ◌/◌, ◌%◌, ◌≡◌, [], ◌∷◌, List, arith, ◌==◌, if◌then◌else◌, Text,
  read_number, read_number-print_number,
}
use okssystem.File.Pretty.{
  flag_char, nothing_char_code, pretty_permissions, permissions_string, read_char_code,
  write_char_code, execute_char_code, setuid_char_code,
}

-- The sum of the masks at whose places something else than `-` stands.
pub read_flags : Text → List ℕ → ℕ
read_flags [] masks = 0
read_flags (c ∷ text) [] = 0
read_flags (c ∷ text) (m ∷ masks) =
    (if c == nothing_char_code then 0 else m) + read_flags text masks

abbrev pub shown_masks : List ℕ
shown_masks = 0o4000 ∷ 0o400 ∷ 0o200 ∷ 0o100 ∷ 0o40 ∷ 0o20 ∷ 0o10 ∷ 0o4 ∷ 0o2 ∷ 0o1 ∷ []

bit_value :
    (b mask code : ℕ)
    → b < 2
    → code ≢ nothing_char_code
    → (if (if b == 1 then code else nothing_char_code) == nothing_char_code then 0 else mask)
      ≡ b * mask
bit_value zero mask code l h = ground arith
bit_value (suc zero) mask code l h = ground arith
bit_value (suc (suc b)) mask code l h = absurd (omega arith)

flag_value :
    (p mask code : ℕ)
    → code ≢ nothing_char_code
    → (if flag_char p mask code == nothing_char_code then 0 else mask) ≡ p / mask % 2 * mask
flag_value p mask code h = bit_value (p / mask % 2) mask code (omega arith) h

-- The permission text of a mode shows its nine permission bits and the setuid bit, each at its own
-- place, and no other bit.
pub read_flags-pretty_permissions :
    (p : ℕ) → read_flags (pretty_permissions p) shown_masks ≡ p / 2048 % 2 * 2048 + p % 512
unfolding read_flags pretty_permissions
read_flags-pretty_permissions p = omega (
  arith,
  flag_value p 0o4000 setuid_char_code (omega arith),
  flag_value p 0o400 read_char_code (omega arith),
  flag_value p 0o200 write_char_code (omega arith),
  flag_value p 0o100 execute_char_code (omega arith),
  flag_value p 0o40 read_char_code (omega arith),
  flag_value p 0o20 write_char_code (omega arith),
  flag_value p 0o10 execute_char_code (omega arith),
  flag_value p 0o4 read_char_code (omega arith),
  flag_value p 0o2 write_char_code (omega arith),
  flag_value p 0o1 execute_char_code (omega arith),
)

-- The octal text of a mode is read back as the mode.
pub read_number-permissions_string : (p : ℕ) → read_number 8 0 (permissions_string p) ≡ p
unfolding permissions_string
read_number-permissions_string p = read_number-print_number 8 p (omega arith)

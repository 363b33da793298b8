-- ===== src/Prelude/Numerals.antt =====
-- Numbers as text: what `stream << n` writes, in the base that the stream is set to.
use Prim.Native.Nat.{ℕ, zero, suc, ◌+◌, ◌-◌, ◌*◌, ◌/◌, ◌%◌, ◌^◌, ◌≤◌, ◌<◌}
use mathlib.Core.Path.{◌≡◌, refl, ap, ◌∙◌}
use mathlib.Core.Logic.{inl, inr}
use mathlib.Core.Bool.{true, false}
use mathlib.Core.List.{[], ◌∷◌}
use native.Mathlib.Omega.{arith}
use native.Mathlib.Nat.{div-add-mod', div-lt_self}
use okssystem.Prelude.Tests.{ltb, ◌==◌, Bool-cases, if◌then◌else◌}
use okssystem.Prelude.Int.{ℤ, pos, negsuc}
use okssystem.Prelude.Lists.{All}
use okssystem.Prelude.Texts.{Text}

-- The digits of `n` in front of `out`; the first argument bounds their number.
unfoldable pub digits : ℕ → ℕ → ℕ → Text → Text
digits base zero n out = out
digits base (suc k) n out = elim (n == 0) [
  | true ↦ out
  | false ↦ digits base k (n / base) ((b'0' + n % base) ∷ out)
]

unfoldable pub print_number : ℕ → ℕ → Text
unfolding digits
print_number base n = if n == 0 then b'0' ∷ [] else digits base n n []

abbrev pub decimal : ℕ → Text
decimal n = print_number 10 n

-- An unsigned number that the program converts to `int` and prints.
unfoldable pub print_int : ℕ → Text
unfolding print_number
print_int n =
    let w = n % 2 ^ 32 in if ltb w (2 ^ 31) then decimal w else b'-' ∷ decimal (2 ^ 32 - w)

-- `stream << n` for an `int`
unfoldable pub print_integer : ℤ → Text
unfolding print_number
print_integer (pos n) = decimal n
print_integer (negsuc n) = b'-' ∷ decimal (suc n)

-- The number that digits spell behind `n`.
unfoldable pub read_number : ℕ → ℕ → Text → ℕ
read_number base n [] = n
read_number base n (c ∷ s) = read_number base (n * base + (c - b'0')) s

read_number-digits :
    (base k n : ℕ) (out : Text)
    → 1 < base
    → n ≤ k
    → read_number base 0 (digits base k n out) ≡ read_number base n out
unfolding digits
read_number-digits base zero n out hb h = ap (λ m. read_number base m out) (omega arith)
read_number-digits base (suc k) n out hb h = elim (Bool-cases (n == 0)) [
  | inl e ↦ rw (e, digits) (ap (λ m. read_number base m out) (ground arith))
  | inr e ↦
      let positive : zero < n = ground arith in
      let smaller : n / base < n = div-lt_self positive hb in
      let last : n / base * base + (b'0' + n % base - b'0') ≡ n =
        omega (arith, div-add-mod' n base) in
      rw (e, digits)
        (read_number-digits base k (n / base) ((b'0' + n % base) ∷ out) hb (omega (arith, smaller))
          ∙ unfold read_number in ap (λ m. read_number base m out) last)
]

-- Every number is read back from its print, in every base.
pub read_number-print_number :
    (base n : ℕ) → 1 < base → read_number base 0 (print_number base n) ≡ n
unfolding print_number
read_number-print_number base n h = elim (Bool-cases (n == 0)) [
  | inl e ↦ rw (e, print_number) (unfold read_number in ground arith)
  | inr e ↦
      rw (e, print_number)
        (read_number-digits base n n [] h (omega arith) ∙ unfold read_number in refl)
]

-- Digits are bytes of at least '0'.
digits-All :
    (P : ℕ → Type 0)
    → ((m : ℕ) → m < 10 → P (b'0' + m))
    → (k n : ℕ) (out : Text) → All P out
    → All P (digits 10 k n out)
unfolding digits
digits-All P digit zero n out h = h
digits-All P digit (suc k) n out h = elim (Bool-cases (n == 0)) [
  | inl e ↦ rw (e, digits) h
  | inr e ↦
      rw (e, digits)
        (digits-All P digit k (n / 10) ((b'0' + n % 10) ∷ out) (digit (n % 10) (omega arith), h))
]

-- What holds of every digit holds of every byte of a decimal number.
pub decimal-All : (P : ℕ → Type 0) → ((m : ℕ) → m < 10 → P (b'0' + m)) → (n : ℕ) → All P (decimal n)
unfolding print_number
decimal-All P digit n = elim (Bool-cases (n == 0)) [
  | inl e ↦ rw (e, print_number) (digit 0 (omega arith), tt)
  | inr e ↦ rw (e, print_number) (digits-All P digit n n [] tt)
]

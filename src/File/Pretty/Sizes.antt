-- ===== src/File/Pretty/Sizes.antt =====
-- The amounts that `pretty_size` writes, against the size.
use okssystem.Prelude.{
  ℕ, zero, suc, ◌+◌, ◌*◌, ◌/◌, ◌%◌, ◌≤◌, ◌<◌, ◌^◌, ◌≡◌, ◌⊎◌, inl, inr, refl, ◌∙◌, [], ◌∷◌, List,
  arith, ◌==◌, ltb, if◌then◌else◌, true, false, Bool, Bool-cases,
}
use native.Mathlib.Decide.{dec_lt}
use okssystem.File.Pretty.{unit, size_items, pretty_size}

-- What the written amounts add up to, in bytes.
pub items_value : List (ℕ × ℕ) → ℕ
items_value [] = 0
items_value ((amount, i) ∷ items) = amount * unit i + items_value items

-- The byte that is not written.
abbrev pub lost : ℕ → ℕ
lost size = if size % 1024 == 1 then 1 else 0

-- The orders that are asked for fit in an `int`.
pub unit_bounds : (u : ℕ) → u ≤ 3 → (unit u ≡ 1024 ^ u) × (unit u < 2 ^ 31)
unfolding unit
unit_bounds zero h = omega arith
unit_bounds (suc zero) h = omega arith
unit_bounds (suc (suc zero)) h = omega arith
unit_bounds (suc (suc (suc zero))) h = omega arith
unit_bounds (suc (suc (suc (suc u)))) h = absurd (omega arith)

unit_zero : unit 0 ≡ 1
unfolding unit
unit_zero = refl

unit_one : unit 1 ≡ 1024
unfolding unit
unit_one = refl

unit_two : unit 2 ≡ 1048576
unfolding unit
unit_two = refl

unit_three : unit 3 ≡ 1073741824
unfolding unit
unit_three = refl

bytes_value :
    (size : ℕ) (writen : Bool)
    → items_value (size_items 1 size false writen) + (if size == 1 then 1 else 0) ≡ size
unfolding items_value size_items
bytes_value size writen = ground arith

-- One round, where the small amounts are not cut.
items_step :
    (i size : ℕ) (writen : Bool)
    → items_value (size_items (suc i) size false writen) ≡ (
        if ltb (unit i) size
        then size / unit i * unit i + items_value (size_items i (size % unit i) false true)
        else items_value (size_items i size false writen))
unfolding items_value size_items
items_step i size writen = elim (Bool-cases (ltb (unit i) size)) [
  | inl e ↦ rw (e, size_items)
  | inr e ↦ rw (e, size_items)
]

kilobytes_value :
    (size : ℕ) (writen : Bool) → items_value (size_items 2 size false writen) + lost size ≡ size
kilobytes_value size writen = ground (
  arith,
  items_step 1 size writen,
  unit_one,
  bytes_value (size % 1024) true,
  bytes_value size writen,
)

megabytes_value :
    (size : ℕ) (writen : Bool) → items_value (size_items 3 size false writen) + lost size ≡ size
megabytes_value size writen = ground (
  arith,
  items_step 2 size writen,
  unit_two,
  kilobytes_value (size % 1048576) true,
  kilobytes_value size writen,
)

-- Uncut, the amounts that `pretty_size` writes add up to the size, but for one byte: a size that is
-- one more than a multiple of 1024 is written as if it were one less, and a size of 1 as nothing.
pub size_items-value : (size : ℕ) → items_value (size_items 4 size false false) + lost size ≡ size
size_items-value size = ground (
  arith,
  items_step 3 size false,
  unit_three,
  megabytes_value (size % 1073741824) true,
  megabytes_value size false,
)

cut_writen : (i size : ℕ) → size_items i size true true ≡ []
unfolding size_items
cut_writen zero size = refl
cut_writen (suc i) size = ground (arith, cut_writen i size)

-- A unit that is smaller than the size ends the cut loop, and one that is not is passed over.
cut_hit :
    (i size : ℕ) → unit i < size → size_items (suc i) size true false ≡ (size / unit i, i) ∷ []
unfolding size_items
cut_hit i size h = ground (arith, cut_writen i (size % unit i))

cut_pass :
    (i size : ℕ) → size ≤ unit i → size_items (suc i) size true false ≡ size_items i size true false
unfolding size_items
cut_pass i size h = ground arith

-- Cut, a size above 1 is written as one amount, in the largest unit that is smaller than it.
pub size_items_cut :
    (size : ℕ)
    → 1 < size
    → (i : ℕ) × (size_items 4 size true false ≡ (size / unit i, i) ∷ [])
      × (unit i < size)
      × (i ≤ 3)
      × ((i ≡ 3) ⊎ (size ≤ unit (suc i)))
size_items_cut size h = elim (dec_lt (unit 3) size) [
  | yes gb ↦ (3, cut_hit 3 size gb, gb, omega arith, inl refl)
  | no a ↦ elim (dec_lt (unit 2) size) [
    | yes mb ↦
        (2, cut_pass 3 size (omega arith) ∙ cut_hit 2 size mb, mb, omega arith, inr (omega arith))
    | no b ↦ elim (dec_lt (unit 1) size) [
      | yes kb ↦ (
        1,
        cut_pass 3 size (omega arith) ∙ cut_pass 2 size (omega arith) ∙ cut_hit 1 size kb,
        kb,
        omega arith,
        inr (omega arith),
      )
      | no c ↦
          let bytes : unit 0 < size = omega (arith, unit_zero) in
          (
            0,
            cut_pass 3 size (omega arith)
                ∙ cut_pass 2 size (omega arith)
                ∙ cut_pass 1 size (omega arith)
                ∙ cut_hit 0 size bytes,
            bytes,
            omega arith,
            inr (omega arith),
          )
    ]
  ]
]

-- A size of one byte is described by the empty text.
pub pretty_size_one : (cut_small : Bool) → pretty_size 1 cut_small ≡ []
unfolding pretty_size
pretty_size_one true = refl
pretty_size_one false = refl

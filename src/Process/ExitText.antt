-- ===== src/Process/ExitText.antt =====
-- The exit values that have a name, and that the tables are read inside their bounds.
use okssystem.Prelude.{
  ℕ, zero, suc, ◌-◌, ◌≤◌, ◌<◌, ◌≡◌, ◌≢◌, ◌⊎◌, inl, inr, refl, false, Bool-cases, none, some, List,
  [], ◌∷◌, ◌++◌, ◌&&◌, ◌==◌, leb, arith, length, All, Text, ℤ, pos, negsuc, ok, print_integer,
}
use okssystem.Process.{
  ok_exit_name, ex_base, ex_max, test_base_value, test_max_value, sys_exits_names, test_exits_names,
  table_entry, exit_text, exit_pretty,
}

-- 0, the values of <sysexits.h> and those of the test manager.
abbrev pub IsKnown : ℤ → Type 0
IsKnown (negsuc n) = ⊥
IsKnown (pos n) =
    (n ≡ 0) ⊎ (((ex_base ≤ n) × (n ≤ ex_max)) ⊎ ((test_base_value ≤ n) × (n ≤ test_max_value)))

table_entry_inside :
    {S : Type 0} (table : List Text) (i : ℕ) (s : S)
    → All (λ t. t ≢ []) table
    → i < length table
    → (text : Text) × (table_entry table i s ≡ ok (some text) s) × (text ≢ [])
table_entry_inside [] i s h inside = absurd (omega arith)
table_entry_inside (t ∷ table) zero s (ht, h) inside = (t, refl, ht)
table_entry_inside (t ∷ table) (suc i) s (ht, h) inside =
    table_entry_inside table i s h (ground arith)

sys_names_full : All (λ t. t ≢ []) sys_exits_names
sys_names_full = ground arith

test_names_full : All (λ t. t ≢ []) test_exits_names
test_names_full = ground arith

not-IsKnown :
    (n : ℕ)
    → (n == 0) ≡ false
    → (leb ex_base n && leb n ex_max) ≡ false
    → (leb test_base_value n && leb n test_max_value) ≡ false
    → ¬ IsKnown (pos n)
not-IsKnown n positive other unknown known = ground arith

-- `exit_text` gives a text for the values 0, 64 to 78 and 182 to 186, the null pointer for all
-- others, and never reads outside of its tables.
pub exit_text_cases :
    {S : Type 0} (return_value : ℤ) (s : S)
    → ((text : Text) × (exit_text return_value s ≡ ok (some text) s)
        × (text ≢ [])
        × IsKnown return_value)
      ⊎ ((exit_text return_value s ≡ ok none s) × (¬ IsKnown return_value))
unfolding exit_text
exit_text_cases (negsuc n) s = inr (refl, λ h. h)
exit_text_cases (pos n) s = elim (Bool-cases (n == 0)) [
  | inl e ↦ inl (ok_exit_name, rw e refl, ground arith, inl (ground arith))
  | inr positive ↦ elim (Bool-cases (leb ex_base n && leb n ex_max)) [
    | inl e ↦
        let (text, read, full) =
          table_entry_inside sys_exits_names (n - ex_base) s sys_names_full (ground arith) in
        inl (text, rw positive (rw e read), full, inr (inl (ground arith)))
    | inr other ↦ elim (Bool-cases (leb test_base_value n && leb n test_max_value)) [
      | inl e ↦
          let (text, read, full) =
            table_entry_inside test_exits_names (n - test_base_value) s test_names_full
              (ground arith) in
          inl (text, rw positive (rw other (rw e read)), full, inr (inr (ground arith)))
      | inr unknown ↦ inr (
        rw positive (rw other (rw unknown refl)),
        λ known. not-IsKnown n positive other unknown known,
      )
    ]
  ]
]

-- `exit_pretty` never reads outside of the tables either, and its text holds the number: alone for
-- a value without a name, in parentheses behind the name for the others.
pub exit_pretty_cases :
    {S : Type 0} (return_value : ℤ) (s : S)
    → ((text : Text) × (text ≢ [])
        × (exit_pretty return_value s
            ≡ ok (text ++ (b'(' ∷ (print_integer return_value ++ b')' ∷ []))) s)
        × IsKnown return_value)
      ⊎ ((exit_pretty return_value s ≡ ok (print_integer return_value) s)
          × (¬ IsKnown return_value))
unfolding exit_pretty
exit_pretty_cases return_value s = elim (exit_text_cases return_value s) [
  | inl (text, e, full, known) ↦ inl (text, full, rw e refl, known)
  | inr (e, unknown) ↦ inr (rw e refl, unknown)
]

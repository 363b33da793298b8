-- ===== src/Exceptions/Codes.antt =====
-- The error code of an issue stands at the end of its message.
use okssystem.Prelude.{
  ℕ, ◌+◌, ◌-◌, ◌*◌, ◌^◌, ◌<◌, ◌≡◌, refl, ap, ◌∙◌, inl, inr, false, arith, if◌then◌else◌, ◌==◌,
  Bool-cases, [], ◌∷◌, ◌++◌, append-nil, Text, codes, All, some, decimal, decimal-All, print_int,
  read_number, read_number-print_number, Issue, Option, none, exception, not_found_issue,
  alloc_issue, execution_issue, termination_issue, signal_issue, no_user_issue,
  oks_system_call_issue, open_file_issue, read_issue, write_issue, close_file_issue,
  remove_file_issue, rename_file_issue, assertion, out_of_range, memory_fault, stack_overflow,
}
use okssystem.Exceptions.{posix_message, derived_message, message}

-- The number in the last word of a text, up to a closing parenthesis.
pub last_code : ℕ → Text → ℕ
last_code n [] = n
last_code n (c ∷ s) =
    if c == b' '
    then last_code 0 s
    else if c == b')'
    then last_code n s
    else last_code (n * 10 + (c - b'0')) s

-- A byte that neither ends a word nor closes the parentheses.
abbrev IsPlain : ℕ → Type 0
IsPlain c = ((c == b' ') ≡ false) × ((c == b')') ≡ false)

last_code-word : (n : ℕ) (s t : Text) → last_code n (s ++ (b' ' ∷ t)) ≡ last_code 0 t
unfolding last_code
last_code-word n [] t = refl
last_code-word n (c ∷ s) t = elim (Bool-cases (c == b' ')) [
  | inl e ↦ rw (e, last_code) (last_code-word 0 s t)
  | inr e ↦ elim (Bool-cases (c == b')')) [
    | inl e' ↦ rw (e, e', last_code) (last_code-word n s t)
    | inr e' ↦ rw (e, e', last_code) (last_code-word (n * 10 + (c - b'0')) s t)
  ]
]

last_code-digits :
    (n : ℕ) (s : Text) → All IsPlain s → last_code n (s ++ codes ")") ≡ read_number 10 n s
unfolding last_code read_number
last_code-digits n [] h = refl
last_code-digits n (c ∷ s) ((h1, h2), h) =
    rw (h1, h2, last_code, read_number) (last_code-digits (n * 10 + (c - b'0')) s h)

digit-IsPlain : (m : ℕ) → m < 10 → IsPlain (b'0' + m)
digit-IsPlain m h = (ground arith, ground arith)

print_int-small : (n : ℕ) → n < 2 ^ 31 → print_int n ≡ decimal n
unfolding print_int
print_int-small n h = ground arith

last_code-posix_message :
    (s : Text) (error : ℕ) → error < 2 ^ 31 → last_code 0 (s ++ posix_message error) ≡ error
unfolding posix_message
last_code-posix_message s error h =
    let number = print_int error ++ codes ")" in
    let code = codes "code" ++ (b' ' ∷ (codes "=" ++ (b' ' ∷ number))) in
    last_code-word 0 s (codes "(Error" ++ (b' ' ∷ code))
    ∙ last_code-word 0 (codes "(Error") code
    ∙ last_code-word 0 (codes "code") (codes "=" ++ (b' ' ∷ number))
    ∙ last_code-word 0 (codes "=") number
    ∙ (rw (print_int-small error h)
        (last_code-digits 0 (decimal error) (decimal-All IsPlain digit-IsPlain error)))
    ∙ read_number-print_number 10 error (omega arith)

-- The error code that an issue of a class derived from `PosixIssue` is made with: its first
-- attribute.
abbrev pub error_code : Issue → Option ℕ
error_code (alloc_issue error size) = some error
error_code (execution_issue error command status) = some error
error_code (termination_issue error status) = some error
error_code (signal_issue error signal) = some error
error_code (no_user_issue error name id) = some error
error_code (oks_system_call_issue error name action) = some error
error_code (open_file_issue error name) = some error
error_code (read_issue error name) = some error
error_code (write_issue error name) = some error
error_code (close_file_issue error name) = some error
error_code (remove_file_issue error name) = some error
error_code (rename_file_issue error source dest) = some error
error_code issue = none

abbrev code_of : Option (ℕ × Text) → Option ℕ
code_of none = none
code_of (some (error, own)) = some error

code_of-derived_message : (issue : Issue) → code_of (derived_message issue) ≡ error_code issue
unfolding derived_message
code_of-derived_message (alloc_issue error size) = refl
code_of-derived_message (execution_issue error command status) = refl
code_of-derived_message (termination_issue error status) = refl
code_of-derived_message (signal_issue error signal) = refl
code_of-derived_message (no_user_issue error name id) = refl
code_of-derived_message (oks_system_call_issue error name action) = refl
code_of-derived_message (open_file_issue error name) = refl
code_of-derived_message (read_issue error name) = refl
code_of-derived_message (write_issue error name) = refl
code_of-derived_message (close_file_issue error name) = refl
code_of-derived_message (remove_file_issue error name) = refl
code_of-derived_message (rename_file_issue error source dest) = refl
code_of-derived_message (exception text) = refl
code_of-derived_message (not_found_issue name) = refl
code_of-derived_message assertion = refl
code_of-derived_message out_of_range = refl
code_of-derived_message memory_fault = refl
code_of-derived_message stack_overflow = refl

code_of-eq-some :
    (o : Option (ℕ × Text)) (error : ℕ)
    → code_of o ≡ some error
    → (own : Text) × (o ≡ some (error, own))
code_of-eq-some none error h = absurd (cc)
code_of-eq-some (some (e, own)) error h =
    let same : e ≡ error = ground (arith, h) in (own, ap (λ n. some (n, own)) same)

-- If ERS writes the message of a class in front of that of its base, and the error code fits an
-- `int`: the message of an issue of any class derived from `PosixIssue` ends in the error code that
-- the issue was made with (`error_code`), whatever names, numbers and texts stand in it, and a reader
-- of the last word gets it back.
pub message-code :
    (prepend : Text → Text → Text)
    → ((base own : Text) → prepend base own ≡ own ++ base)
    → (issue : Issue) (error : ℕ) → error_code issue ≡ some error
    → error < 2 ^ 31
    → (text : Text) × (message prepend issue ≡ some text) × (last_code 0 text ≡ error)
unfolding message
message-code prepend in_front issue error made h =
    let (own, e) =
      code_of-eq-some (derived_message issue) error (code_of-derived_message issue ∙ made) in
    rw (e, message)
      (
        prepend (prepend [] (posix_message error)) own,
        refl,
        (rw
            (
              in_front [] (posix_message error),
              in_front (posix_message error ++ []) own,
              append-nil (posix_message error),
            )
            (last_code-posix_message own error h)),
      )

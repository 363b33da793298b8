-- ===== src/StringMemoryArea/Variables/Runs.antt =====
-- Runs of assignments: what every variable is read as behind them.
use okssystem.Prelude.{
  ℕ, ◌≡◌, inl, inr, refl, true, Option, none, Option-cases, List, [], ◌∷◌, arith, Text,
}
use okssystem.StringMemoryArea.{Area, get_string, read_text}
use okssystem.StringMemoryArea.Strings.{IsValid, last_string-lt}
use okssystem.StringMemoryArea.Variables.{
  AllContained, Cells, assign, read_variable, specified, Implements, Assignment, run, specified_run,
}
use okssystem.StringMemoryArea.Variables.Refinement.Steps.{assign-Implements}

run-Implements :
    (assignments : List Assignment) (texts : ℕ → Option Text) (c : Cells)
    → Implements texts c.offsets c.area
    → AllContained assignments c
    → Implements
        (specified_run assignments (run assignments c).0 texts)
        (run assignments c).1.offsets
        (run assignments c).1.area
run-Implements [] texts c im inside = im
run-Implements ((i, s) ∷ assignments) texts c im (first, rest) =
    run-Implements assignments (specified i s (assign i s c).0 texts) (assign i s c).1
      (assign-Implements texts c i s im first).0 rest

read-Implements :
    (texts : ℕ → Option Text) (c : Cells) (i : ℕ)
    → Implements texts c.offsets c.area
    → read_variable i c ≡ texts i
unfolding read_variable get_string read_text
read-Implements texts c i im = elim (Option-cases (texts i)) [
  | inl empty ↦ ground (arith, im.unset i empty)
  | inr (t, held) ↦
      let (low, high, reads) = im.stored i t held in
      ground (arith, reads, low, high, im.valid.sized, last_string-lt im.valid, im.readable)
]

pub unset-Implements :
    (a : Area) → IsValid a → a.readable ≡ true → Implements (λ j. none) (λ j. 0) a
unset-Implements a v r = record {
  valid = v;
  readable = r;
  unset = λ j h. refl;
  stored = λ j t h. absurd (ground (arith, h));
  apart = λ j k t u differ h k'. absurd (ground (arith, h));
}

-- Variables in a valid and readable area, none assigned yet: behind any run of assignments,
-- each variable reads as the abstract variables say, by the assignments that returned. No text may
-- end where its terminator falls on the first byte behind the area, or beyond 2^32
-- (`AllContained`).
pub read_variable-run :
    (a : Area) (assignments : List Assignment) (i : ℕ)
    → IsValid a
    → a.readable ≡ true
    → AllContained assignments (record { offsets = λ j. 0; area = a })
    → (let (answers, c) = run assignments (record { offsets = λ j. 0; area = a }) in
        read_variable i c ≡ specified_run assignments answers (λ j. none) i)
read_variable-run a assignments i v r inside =
    let start : Cells = record { offsets = λ j. 0; area = a } in
    read-Implements _ (run assignments start).1 i
      (run-Implements assignments (λ j. none) start (unset-Implements a v r) inside)

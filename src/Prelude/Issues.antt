-- ===== src/Prelude/Issues.antt =====
-- include/okssystem/exceptions.hpp: the issues that the package throws, and the monad of its
-- methods: a method reads and changes a state, and returns a value or throws an issue.
-- A method that throws keeps what it has changed before.
use Prim.Native.Nat.{ℕ}
use mathlib.Core.Path.{◌≡◌, refl}
use mathlib.Core.Logic.{◌⊎◌, inl, inr}
use mathlib.Core.Bool.{Bool, true, false}
use okssystem.Prelude.Int.{ℤ}
use okssystem.Prelude.Texts.{Text}

-- The issue classes with their attributes (error code first). `assertion` is a failed check of the
-- ERS macros, `out_of_range` the exception of `std::string::substr`. `memory_fault` is no
-- exception: it marks an access outside of the memory, after which nothing is known. Nor is
-- `stack_overflow`: it marks a recursion that goes deeper than the bound that the model sets.
pub data Issue : Type 0 where
  exception : Text → Issue
  not_found_issue : Text → Issue
  alloc_issue : ℕ → ℕ → Issue
  execution_issue : ℕ → Text → ℤ → Issue
  termination_issue : ℕ → ℤ → Issue
  signal_issue : ℕ → ℕ → Issue
  no_user_issue : ℕ → Text → ℕ → Issue
  oks_system_call_issue : ℕ → Text → Text → Issue
  open_file_issue : ℕ → Text → Issue
  read_issue : ℕ → Text → Issue
  write_issue : ℕ → Text → Issue
  close_file_issue : ℕ → Text → Issue
  remove_file_issue : ℕ → Text → Issue
  rename_file_issue : ℕ → Text → Text → Issue
  assertion : Issue
  out_of_range : Issue
  memory_fault : Issue
  stack_overflow : Issue

-- What a call gives back: a value or an issue, each with the state that it leaves.
pub data Out (S A : Type 0) : Type 0 where
  ok : A → S → Out S A
  err : Issue → S → Out S A

abbrev pub M : Type 0 → Type 0 → Type 0
M S A = S → Out S A

abbrev pub pure : {S A : Type 0} → A → M S A
pure a s = ok a s

abbrev pub throw : {S A : Type 0} → Issue → M S A
throw e s = err e s

abbrev pub bind_out : {S A B : Type 0} → Out S A → (A → M S B) → Out S B
bind_out (ok a s) f = f a s
bind_out (err e s) f = err e s

infixl 5 ◌>>=◌ ◌>>◌
abbrev pub ◌>>=◌ : {S A B : Type 0} → M S A → (A → M S B) → M S B
◌>>=◌ m f s = bind_out (m s) f

abbrev pub ◌>>◌ : {S B : Type 0} → M S (Unit {0}) → M S B → M S B
m >> k = m >>= λ _. k

-- `try { m } catch (issue) { h }`
abbrev pub catch_out : {S A : Type 0} → Out S A → (Issue → M S A) → Out S A
catch_out (ok a s) h = ok a s
catch_out (err e s) h = h e s

abbrev pub catch : {S A : Type 0} → M S A → (Issue → M S A) → M S A
catch m h s = catch_out (m s) h

-- `catch (OksSystemCallIssue &e)`: the handler is given the error code of the issue.
abbrev pub catch_call_issue : {S A : Type 0} → Issue → (ℕ → M S A) → M S A
catch_call_issue issue h s = elim issue [
  | oks_system_call_issue error name action ↦ h error s
  | e ↦ err e s
]

abbrev pub catch_call : {S A : Type 0} → M S A → (ℕ → M S A) → M S A
catch_call m h = catch m (λ issue. catch_call_issue issue h)

-- `ERS_PRECONDITION`, `ERS_ASSERT`: a check that fails throws.
abbrev pub ensure : {S : Type 0} → Bool → M S (Unit {0})
ensure true s = ok tt s
ensure false s = err assertion s

-- The state that is left, on either way out.
abbrev pub state_of : {S A : Type 0} → Out S A → S
state_of (ok a s) = s
state_of (err e s) = s

-- Inversion of a successful chain.
pub bind_out-eq-ok :
    {S A B : Type 0} (o : Out S A) (f : A → M S B) {b : B} {s : S}
    → bind_out o f ≡ ok b s
    → (a : A) × (t : S) × (o ≡ ok a t) × (f a t ≡ ok b s)
bind_out-eq-ok (ok a t) f h = (a, t, refl, h)
bind_out-eq-ok (err e t) f h = cc

pub Out-cases :
    {S A : Type 0} (o : Out S A)
    → ((a : A) × (s : S) × (o ≡ ok a s)) ⊎ ((e : Issue) × (s : S) × (o ≡ err e s))
Out-cases (ok a s) = inl (a, s, refl)
Out-cases (err e s) = inr (e, s, refl)

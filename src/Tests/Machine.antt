-- ===== src/Tests/Machine.antt =====
-- Programs that are started: a system with a signal mask, one pipe that holds a text, and a list of
-- the descriptors that are closed, and a count of the pipes that were made. Every child has the number 6 and exits with 0.
use okssystem.Prelude.{
  ℕ, zero, suc, ◌+◌, ◌*◌, ◌==◌, ◌≡◌, ◌≢◌, inl, inr, refl, sym, ◌∙◌, Bool-cases, Bool, true, false,
  not, ◌||◌, some, List, [], ◌∷◌, if◌then◌else◌, arith, take, drop, Text, codes, ℤ, pos, negsuc,
}
use okssystem.Calls.{done, failed, ProcessCalls, IoCalls, SpawnCalls, in_parent}
use okssystem.File.Object.{File}
use okssystem.StringMemoryArea.Maps.{StrMap}
use okssystem.Executable.{Executable}
use okssystem.Executable.Mask.{IsMask}
use okssystem.Executable.Output.{IsPipes}
use okssystem.Tests.World.{bare_io}

pub record Machine : Type 0 where
  pub mask : ℕ
  pub rest : Text
  pub closed : List ℤ
  pub pipes : ℕ

abbrev pub same_number : ℤ → ℤ → Bool
same_number (pos m) (pos n) = m == n
same_number (negsuc m) (negsuc n) = m == n
same_number (pos m) (negsuc n) = false
same_number (negsuc m) (pos n) = false

same_number_refl : (a : ℤ) → same_number a a ≡ true
same_number_refl (pos n) = ground arith
same_number_refl (negsuc n) = ground arith

other_number : (a b : ℤ) → a ≢ b → same_number a b ≡ false
other_number (pos m) (pos n) h = ground arith
other_number (negsuc m) (negsuc n) h = ground arith
other_number (pos m) (negsuc n) h = refl
other_number (negsuc m) (pos n) h = refl

same_number-eq : (a b : ℤ) → same_number a b ≡ true → a ≡ b
same_number-eq (pos m) (pos n) h = ground arith
same_number-eq (negsuc m) (negsuc n) h = ground arith
same_number-eq (pos m) (negsuc n) h = ground arith
same_number-eq (negsuc m) (pos n) h = ground arith

abbrev pub is_closed : ℤ → List ℤ → Bool
is_closed fd [] = false
is_closed fd (n ∷ closed) = same_number fd n || is_closed fd closed

-- Descriptor 5 reads from the pipe.
abbrev pub pipe_fd : ℤ
pipe_fd = pos 5

abbrev pub content : ℤ → Machine → Text
content fd w = if same_number fd pipe_fd then w.rest else []

abbrev pub is_open : ℤ → Machine → Bool
is_open fd w = not (is_closed fd w.closed)

abbrev pub after_read : ℤ → ℕ → Machine → Machine
after_read fd n w = record w { rest = if same_number fd pipe_fd then drop n w.rest else w.rest }

abbrev pub io : IoCalls Machine
io = record bare_io {
  close = λ fd w. (done tt, record w { closed = fd ∷ w.closed });
  read = λ fd n w. (done (take n (content fd w)), after_read fd n w);
}

abbrev pub spawn : SpawnCalls Machine
spawn = record {
  sigmask = λ m w. (w.mask, record w { mask = m });
  fork = λ w. (in_parent 6, w);
  set_default = λ n w. w;
  set_ignored = λ n w. w;
  execv = λ path argv w. failed 2;
  execve = λ path argv envp w. done tt;
  calloc = λ size w. true;
  strdup = λ s w. some s;
  pipe =
      λ w. (done (pos (3 + 2 * w.pipes), pos (4 + 2 * w.pipes)), record w { pipes = w.pipes + 1 });
  dup2 = λ fd n w. w;
  errno = λ w. 0;
}

abbrev pub calls : ProcessCalls Machine
calls = record {
  getpid = λ w. pos 9;
  waitpid = λ pid w. (record { pid = pid; status = 0; errno = 0 }, w);
  kill = λ pid number w. (failed 3, w);
  wifexited = λ status. true;
  wexitstatus = λ status. pos status;
  wifsignaled = λ status. false;
  wtermsig = λ status. 0;
  wifstopped = λ status. false;
  wstopsig = λ status. 0;
}

pub machine-IsMask : IsMask spawn io (λ w. w.mask)
machine-IsMask = record {
  sets = λ m w. refl;
  gives = λ m w. refl;
  dup2_keeps = λ fd n w. refl;
  close_keeps = λ fd w. refl;
  open_keeps = λ name f p w. refl;
  fchmod_keeps = λ fd p w. refl;
  warning_keeps = λ e w. refl;
}

content-after_read :
    (fd : ℤ) (n : ℕ) (w : Machine) → content fd (after_read fd n w) ≡ drop n (content fd w)
content-after_read fd zero w = ground arith
content-after_read fd (suc n) w = ground arith

content-after_read_other :
    (fd other : ℤ) (n : ℕ) (w : Machine)
    → other ≢ fd
    → content other (after_read fd n w) ≡ content other w
content-after_read_other fd other n w h = elim (Bool-cases (same_number other pipe_fd)) [
  | inl e ↦ rw (e, other_number fd pipe_fd (λ p. h (same_number-eq other pipe_fd e ∙ sym p))) refl
  | inr e ↦ rw e refl
]

pub machine-IsPipes : IsPipes io content is_open
machine-IsPipes = record {
  reads = λ fd n w h. (n, refl, content-after_read fd n w, omega arith, λ e. absurd (h e));
  read_keeps = content-after_read_other;
  read_open = λ fd other n w. refl;
  close_opens_none = λ fd other w h. ground (arith, h);
  closes = λ fd w. rw (same_number_refl fd) refl;
  close_keeps = λ fd other w h. rw (other_number other fd h) refl;
}

abbrev pub sort_program : Executable
sort_program = record { file = record { full_name = codes "/bin/sort" } }

abbrev pub reverse : List Text
reverse = codes "-r" ∷ []

abbrev pub variables : StrMap
variables = (codes "HOME", codes "/root") ∷ (codes "OPTS", codes "a=b") ∷ []

abbrev pub ready : Machine
ready = record { mask = 4; rest = codes "done"; closed = []; pipes = 0 }

abbrev pub null_file : File
null_file = record { full_name = codes "/dev/null" }

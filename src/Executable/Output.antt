-- ===== src/Executable/Output.antt =====
-- What `copy_fd` and the parent of `pipe_in` make of the pipes.
pub mod Closing
pub mod Collected
pub mod Commands
use okssystem.Prelude.{
  ℕ, zero, suc, ◌+◌, ◌-◌, ◌≤◌, ◌<◌, ◌≡◌, ◌≢◌, ◌⊎◌, inl, inr, refl, sym, ap, ◌∙◌, Bool, true, false,
  Bool-cases, if◌then◌else◌, leb, List, [], ◌∷◌, ◌++◌, append-nil, append_assoc, arith, length,
  length-append, length-take, length-drop, take, drop, take-append-drop, Text, ℤ, is_zero, Issue,
  execution_issue, Out, ok, err,
}
use okssystem.Calls.{Answer, done, failed, SpawnCalls, IoCalls, ProcessCalls}
use okssystem.Process
use okssystem.Process.{Process, State}
use okssystem.Executable.{Executable, to_string}
use okssystem.Executable.Pipes.{
  buffer_size, Ends, copy_fd, close_end, close_three, collect_output, command_result,
}

-- Descriptors whose writers have ended: `read` gives a first part of what is left, and the empty text
-- at its end alone; `close` closes a descriptor.
pub record IsPipes {W : Type 0} (io : IoCalls W) (content : ℤ → W → Text) (is_open : ℤ → W → Bool)
    : Type 0 where
  pub reads :
      (fd : ℤ) (n : ℕ) (w : W)
      → n ≢ 0
      → (k : ℕ) × ((io.read fd n w).0 ≡ done (take k (content fd w)))
        × (content fd (io.read fd n w).1 ≡ drop k (content fd w))
        × (k ≤ n)
        × ((k ≡ 0) → content fd w ≡ [])
  pub read_keeps :
      (fd other : ℤ) (n : ℕ) (w : W)
      → other ≢ fd
      → content other (io.read fd n w).1 ≡ content other w
  pub read_open :
      (fd other : ℤ) (n : ℕ) (w : W) → is_open other (io.read fd n w).1 ≡ is_open other w
  pub close_opens_none :
      (fd other : ℤ) (w : W) → is_open other w ≡ false → is_open other (io.close fd w).1 ≡ false
  pub closes : (fd : ℤ) (w : W) → is_open fd (io.close fd w).1 ≡ false
  pub close_keeps :
      (fd other : ℤ) (w : W) → other ≢ fd → is_open other (io.close fd w).1 ≡ is_open other w

empty_of_take : (k : ℕ) (t : Text) → (k ≡ 0 → t ≡ []) → take k t ≡ [] → t ≡ []
empty_of_take zero t h e = h refl
empty_of_take (suc k) [] h e = refl
empty_of_take (suc k) (x ∷ t) h e = absurd (ground (arith, e))

shorter : (n k : ℕ) (t : Text) → length t < suc n → take k t ≢ [] → length (drop k t) < n
shorter n zero t h e = absurd (e refl)
shorter n (suc k) [] h e = absurd (e refl)
shorter n (suc k) (x ∷ t) h e = omega (arith, length-drop k t)

module _ {W : Type 0} (io : IoCalls W) (content : ℤ → W → Text) (is_open : ℤ → W → Bool)
    (laws : IsPipes io content is_open) where
  -- What does not change while `fd` is read.
  abbrev pub ReadOnly : ℤ → W → W → Type 0
  ReadOnly fd w w' =
      ((other : ℤ) → other ≢ fd → content other w' ≡ content other w)
      × ((other : ℤ) → is_open other w' ≡ is_open other w)

  copy_fd-end :
      (rounds : ℕ) (fd : ℤ) (target : Text) (w : W)
      → (io.read fd buffer_size w).0 ≡ done []
      → copy_fd io (suc rounds) fd target w ≡ ok target (io.read fd buffer_size w).1
  unfolding copy_fd
  copy_fd-end rounds fd target w e = ground (arith, e)

  copy_fd-more :
      (rounds : ℕ) (fd : ℤ) (target : Text) (w : W) (x : ℕ) (chunk : Text)
      → (io.read fd buffer_size w).0 ≡ done (x ∷ chunk)
      → length (x ∷ chunk) ≤ buffer_size
      → copy_fd io (suc rounds) fd target w
        ≡ copy_fd io rounds fd (target ++ (x ∷ chunk)) (io.read fd buffer_size w).1
  unfolding copy_fd
  copy_fd-more rounds fd target w x chunk e bound = ground (arith, e)

  ReadOnly-read : (fd : ℤ) (w : W) → ReadOnly fd w (io.read fd buffer_size w).1
  ReadOnly-read fd w = (
    λ other h. laws.read_keeps fd other buffer_size w h,
    λ other. laws.read_open fd other buffer_size w,
  )

  Copied : ℕ → ℤ → Text → W → Type 0
  Copied rounds fd target w =
      (w' : W) × (copy_fd io rounds fd target w ≡ ok (target ++ content fd w) w') × ReadOnly fd w w'

  -- One read, if the rest is copied as it should.
  Copied-read :
      (rounds : ℕ) (fd : ℤ) (target : Text) (w : W) (chunk rest : Text)
      → content fd w ≡ chunk ++ rest
      → (io.read fd buffer_size w).0 ≡ done chunk
      → length chunk ≤ buffer_size
      → (chunk ≡ [] → content fd w ≡ [])
      → content fd (io.read fd buffer_size w).1 ≡ rest
      → (chunk ≢ [] → Copied rounds fd (target ++ chunk) (io.read fd buffer_size w).1)
      → Copied (suc rounds) fd target w
  unfolding Copied
  Copied-read rounds fd target w [] rest whole e bound at_end left ih =
      let w' = (io.read fd buffer_size w).1 in
      (
        w',
        copy_fd-end rounds fd target w e ∙ rw (at_end refl, append-nil target) refl,
        ReadOnly-read fd w,
      )
  Copied-read rounds fd target w (x ∷ chunk) rest whole e bound at_end left ih =
      let (w', same, keeps) = ih (λ h. cc) in
      (
        w',
        copy_fd-more rounds fd target w x chunk e bound
            ∙ same
            ∙ rw (left, whole, append_assoc target (x ∷ chunk) rest) refl,
        (
          λ other h. keeps.0 other h ∙ laws.read_keeps fd other buffer_size w h,
          λ other. keeps.1 other ∙ laws.read_open fd other buffer_size w,
        ),
      )

  -- If the descriptors behave as pipes whose writers have ended (`IsPipes`), and there are more rounds
  -- than bytes, then `copy_fd` appends all that is left in the descriptor to its target, however the
  -- reads cut it into parts, and neither reads from other descriptors nor opens or closes any.
  pub copy_fd_lem :
      (rounds : ℕ) (fd : ℤ) (target : Text) (w : W)
      → length (content fd w) < rounds
      → (w' : W) × (copy_fd io rounds fd target w ≡ ok (target ++ content fd w) w')
        × ReadOnly fd w w'
  unfolding Copied
  copy_fd_lem zero fd target w h = absurd (omega arith)
  copy_fd_lem (suc rounds) fd target w h =
      let (k, gives, left, bound, rest_empty) = laws.reads fd buffer_size w (omega arith) in
      let all = content fd w in
      Copied-read rounds fd target w (take k all) (drop k all) (sym (take-append-drop k all)) gives
        (omega (arith, length-take k all)) (empty_of_take k all rest_empty) left
        (λ some_read.
          copy_fd_lem rounds fd (target ++ take k all) (io.read fd buffer_size w).1
            (rw left (shorter rounds k all h some_read)))

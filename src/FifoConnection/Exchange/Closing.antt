-- ===== src/FifoConnection/Exchange/Closing.antt =====
-- The descriptors that are open behind `read_message` and `send_message`.
use okssystem.Prelude.{
  ℕ, ◌≡◌, inl, inr, refl, sym, ◌∙◌, Bool, true, false, arith, Text, ℤ, pos, false_of_implies,
  exception, M, Out, Out-cases, ok, err, bind_out, state_of, codes, ◌++◌, ensure,
}
use okssystem.Calls.{UserCalls, FileCalls, IoCalls}
use okssystem.File.Object.{File}
use okssystem.File.Pretty.{o_wronly}
use okssystem.Descriptor.{Descriptor, open_descriptor, destroy}
use okssystem.Descriptor.Table.{IsTable, destroy_opens_none, destroy_closes, open_descriptor-Holds}
use okssystem.FifoConnection.{
  check_fifo, warn_no_fifo, leave_scope, read_rounds, put_message, read_message, send_message,
  can_send,
}
use okssystem.FifoConnection.Exchange.{check_fifo_cases}
use okssystem.FifoConnection.Sessions.Table.{read_rounds_keeps, put_message_keeps}

module _ {W : Type 0} (users : UserCalls W) (files : FileCalls W) (io : IoCalls W)
    (is_open : ℤ → W → Bool) (laws : IsTable io is_open) where
  -- A call that opens no descriptor, however it ends.
  OpensNone : {A : Type 0} → W → Out W A → Type 0
  OpensNone w o = (fd : ℤ) → is_open fd (state_of o) ≡ true → is_open fd w ≡ true

  abbrev destructor : Descriptor → W → W
  destructor d w = destroy io (record { descriptor = d; world = w })

  leave_scope_state :
      {A : Type 0} (d : Descriptor) (o : Out W A)
      → state_of (leave_scope (destructor d) o) ≡ destructor d (state_of o)
  leave_scope_state d (ok a w) = refl
  leave_scope_state d (err e w) = refl

  -- A local descriptor, and a body that leaves the table alone.
  abbrev scoped : {A : Type 0} → File → ℕ → (Descriptor → M W A) → M W A
  scoped f i_flags body w =
      bind_out (open_descriptor users files io f i_flags 0 w)
        (λ d v. leave_scope (destructor d) (body d v))

  scoped-OpensNone :
      {A : Type 0} (f : File) (i_flags : ℕ) (body : Descriptor → M W A) (w : W)
      → ((d : Descriptor) (v : W) (fd : ℤ) → is_open fd (state_of (body d v)) ≡ is_open fd v)
      → OpensNone w (scoped f i_flags body w)
  unfolding OpensNone
  scoped-OpensNone f i_flags body w keeps fd h =
      let holds = open_descriptor-Holds users files io is_open laws f i_flags 0 w fd in
      elim (Out-cases (open_descriptor users files io f i_flags 0 w)) [
        | inr (e, v, failed) ↦ elim (holds (rw failed (rw failed at h))) [
          | inl old ↦ old
          | inr (d, opened, held) ↦ absurd (cc)
        ]
        | inl (d, v, opened) ↦
            let left : is_open fd (destructor d (state_of (body d v))) ≡ true =
              rw (← leave_scope_state d (body d v)) (rw opened at h) in
            let inside : is_open fd v ≡ true =
              sym (keeps d v fd)
              ∙ destroy_opens_none users files io is_open laws
                  (record { descriptor = d; world = state_of (body d v) }) fd left in
            elim (holds (rw opened inside)) [
              | inl old ↦ old
              | inr (d', same, (n, number, held)) ↦
                  let here : d.m_fd ≡ pos n = ground (arith, opened, same, held) in
                  let shut =
                    destroy_closes users files io is_open laws d (state_of (body d v)) n here in
                  absurd (ground (arith, rw number at left, shut))
            ]
      ]

  warn_keeps :
      (fifo : Bool) (f : File) (w : W) (fd : ℤ)
      → is_open fd (warn_no_fifo users files io fifo f w) ≡ is_open fd w
  warn_keeps true f w fd = refl
  warn_keeps false f w fd =
      laws.warning_keeps fd (exception (f.full_name ++ codes " is not a FIFO")) w

  checked-OpensNone :
      {A : Type 0} (f : File) (k : W → Out W A) (w : W)
      → ((v : W) → OpensNone v (k v))
      → OpensNone w (bind_out (check_fifo users files io f w) (λ u v. k v))
  unfolding OpensNone
  checked-OpensNone f k w rest fd h = elim (check_fifo_cases users files io f w) [
    | inl (fifo, e) ↦
        sym (warn_keeps fifo f w fd) ∙ rest (warn_no_fifo users files io fifo f w) fd (rw e at h)
    | inr (issue, e) ↦ rw e at h
  ]

  ensured-OpensNone :
      {A : Type 0} (b : Bool) (k : W → Out W A) (w : W)
      → OpensNone w (k w)
      → OpensNone w (bind_out (ensure b w) (λ u v. k v))
  unfolding OpensNone
  ensured-OpensNone true k w h = h
  ensured-OpensNone false k w h = λ fd e. e

  read_message-OpensNone :
      (rounds : ℕ) (f : File) (w : W) → OpensNone w (read_message users files io rounds f w)
  unfolding read_message
  read_message-OpensNone rounds f w =
      checked-OpensNone f (scoped f 0 (read_rounds io rounds true)) w (λ v.
        scoped-OpensNone f 0 (read_rounds io rounds true) v
          (read_rounds_keeps users files io is_open laws rounds true))

  send_message-OpensNone :
      (f : File) (message : Text) (w : W) → OpensNone w (send_message users files io f message w)
  unfolding send_message
  send_message-OpensNone f message w =
      let body = λ (d : Descriptor). put_message io d message in
      checked-OpensNone f
        (λ v. bind_out (ensure (can_send message) v) (λ u. scoped f o_wronly body)) w
        (λ v. ensured-OpensNone (can_send message) (scoped f o_wronly body) v (
          scoped-OpensNone f o_wronly body v
            (λ d v' fd. put_message_keeps users files io is_open laws d message v' fd)))

  -- If the calls treat the table of descriptors as `IsTable` says: behind `read_message` and
  -- `send_message`, whether they return or throw, no descriptor is open that was not open before.
  pub message-closes :
      (f : File) (rounds : ℕ) (message : Text) (w : W) (fd : ℤ)
      → is_open fd w ≡ false
      → (is_open fd (state_of (read_message users files io rounds f w)) ≡ false)
        × (is_open fd (state_of (send_message users files io f message w)) ≡ false)
  unfolding OpensNone
  message-closes f rounds message w fd free = (
    false_of_implies _ _ (read_message-OpensNone rounds f w fd) free,
    false_of_implies _ _ (send_message-OpensNone f message w fd) free,
  )

-- ===== src/Descriptor/Table.antt =====
-- The table of open descriptors, and what the methods of a descriptor do to it.
use okssystem.Prelude.{
  Issue, ◌≢◌, ℕ, ◌≡◌, ◌⊎◌, inl, inr, refl, ◌∙◌, sym, Bool, true, false, arith, Option, none, some,
  close_file_issue, Text, ℤ, pos, ok, state_of,
}
use okssystem.Calls.{Answer-cases, done, UserCalls, FileCalls, IoCalls}
use okssystem.File.Object.{File}
use okssystem.Descriptor.{Descriptor, Held, destroy, close_safe, open_descriptor}

-- A table of open descriptors: `open` adds the one that it gives, `close` takes one away, and no
-- other call changes it.
pub record IsTable {W : Type 0} (io : IoCalls W) (is_open : ℤ → W → Bool) : Type 0 where
  pub opens :
      (name : Text) (f p : ℕ) (w : W) (fd : ℤ)
      → is_open fd (io.open_file name f p w).1 ≡ true
      → (is_open fd w ≡ true) ⊎ ((n : ℕ) × ((io.open_file name f p w).0 ≡ done n) × (fd ≡ pos n))
  pub opens_keep :
      (name : Text) (f p : ℕ) (w : W) (fd : ℤ)
      → is_open fd w ≡ true
      → is_open fd (io.open_file name f p w).1 ≡ true
  pub closes : (fd : ℤ) (w : W) → is_open fd (io.close fd w).1 ≡ false
  pub close_opens_none :
      (fd other : ℤ) (w : W) → is_open other (io.close fd w).1 ≡ true → is_open other w ≡ true
  pub read_keeps :
      (fd other : ℤ) (n : ℕ) (w : W) → is_open other (io.read fd n w).1 ≡ is_open other w
  pub write_keeps :
      (fd other : ℤ) (b : Text) (w : W) → is_open other (io.write fd b w).1 ≡ is_open other w
  pub usleep_keeps : (fd : ℤ) (n : ℕ) (w : W) → is_open fd (io.usleep n w) ≡ is_open fd w
  pub warning_keeps : (fd : ℤ) (e : Issue) (w : W) → is_open fd (io.warning e w) ≡ is_open fd w
  pub fchmod_keeps :
      (fd other : ℤ) (p : ℕ) (w : W) → is_open other (io.fchmod fd p w) ≡ is_open other w
  pub close_keeps :
      (fd other : ℤ) (w : W) → other ≢ fd → is_open other (io.close fd w).1 ≡ is_open other w
  pub mmap_keeps :
      (fd : ℤ) (size prot f : ℕ) (d : ℤ) (offset : ℕ) (w : W)
      → is_open fd (io.mmap size prot f d offset w).1 ≡ is_open fd w
  pub munmap_keeps :
      (fd : ℤ) (address size : ℕ) (w : W) → is_open fd (io.munmap address size w).1 ≡ is_open fd w

-- The object holds this number.
abbrev pub Holds : Option Descriptor → ℤ → Type 0
Holds none fd = ⊥
Holds (some d) fd = (n : ℕ) × (fd ≡ pos n) × (d.m_fd ≡ pos n)

module _ {W : Type 0} (users : UserCalls W) (files : FileCalls W) (io : IoCalls W)
    (is_open : ℤ → W → Bool) (laws : IsTable io is_open) where
  pub close_safe_open :
      (d : Descriptor) (w : W) (fd : ℤ)
      → is_open fd (close_safe io d w) ≡ is_open fd (io.close d.m_fd w).1
  unfolding close_safe
  close_safe_open d w fd = elim (Answer-cases (io.close d.m_fd w).0) [
    | inl (u, e) ↦ ground (arith, e)
    | inr (errno, e) ↦
        ground
          (arith, e, laws.warning_keeps fd (close_file_issue errno d.m_name) (io.close d.m_fd w).1)
  ]

  pub destroy_opens_none :
      (held : Held W) (fd : ℤ) → is_open fd (destroy io held) ≡ true → is_open fd held.world ≡ true
  unfolding destroy
  destroy_opens_none held fd h =
      let d = held.descriptor in
      ground (arith, h, close_safe_open d held.world fd, laws.close_opens_none d.m_fd fd held.world)

  pub destroy_closes :
      (d : Descriptor) (w : W) (n : ℕ)
      → d.m_fd ≡ pos n
      → is_open (pos n) (destroy io (record { descriptor = d; world = w })) ≡ false
  unfolding destroy
  destroy_closes d w n h = ground (arith, h, close_safe_open d w (pos n), laws.closes (pos n) w)

  pub open_descriptor_table :
      (f : File) (i_flags perm : ℕ) (w : W) (fd : ℤ)
      → is_open fd (state_of (open_descriptor users files io f i_flags perm w))
        ≡ is_open fd (io.open_file f.full_name i_flags perm w).1
  unfolding open_descriptor
  open_descriptor_table f i_flags perm w fd =
      let w' = (io.open_file f.full_name i_flags perm w).1 in
      elim (Answer-cases (io.open_file f.full_name i_flags perm w).0) [
        | inl (n, e) ↦ ground (arith, e, laws.fchmod_keeps (pos n) fd perm w')
        | inr (errno, e) ↦ ground (arith, e)
      ]

  pub open_descriptor_done :
      (f : File) (i_flags perm : ℕ) (w : W) (n : ℕ)
      → (io.open_file f.full_name i_flags perm w).0 ≡ done n
      → open_descriptor users files io f i_flags perm w
        ≡ ok
            (record { m_fd = pos n; m_name = f.full_name })
            (state_of (open_descriptor users files io f i_flags perm w))
  unfolding open_descriptor
  open_descriptor_done f i_flags perm w n e = ground (arith, e)

  pub open_descriptor-Holds :
      (f : File) (i_flags perm : ℕ) (w : W) (fd : ℤ)
      → is_open fd (state_of (open_descriptor users files io f i_flags perm w)) ≡ true
      → (is_open fd w ≡ true)
        ⊎ ((d : Descriptor) × (open_descriptor users files io f i_flags perm w
              ≡ ok d (state_of (open_descriptor users files io f i_flags perm w)))
            × Holds (some d) fd)
  open_descriptor-Holds f i_flags perm w fd h =
      elim (laws.opens f.full_name i_flags perm w fd
        (sym (open_descriptor_table f i_flags perm w fd) ∙ h)) [
          | inl old ↦ inl old
          | inr (n, e, same) ↦ inr (
            record { m_fd = pos n; m_name = f.full_name },
            open_descriptor_done f i_flags perm w n e,
            (n, same, refl),
          )
        ]

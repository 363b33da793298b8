-- ===== src/MapFile/Accounts.antt =====
-- The descriptors that are open behind the methods of a mapped file: those that were open before,
-- and the one that the object holds.
use okssystem.Prelude.{
  ◌≡◌, ◌⊎◌, inl, inr, refl, ap, sym, ◌∙◌, Bool, true, false, none, some, Option-cases, arith, Issue,
  ℤ, ok, err, state_of, Out, Out-cases,
}
use okssystem.Calls.{Answer-cases, UserCalls, FileCalls, IoCalls}
use okssystem.Descriptor.{Descriptor, open_descriptor, flags, close, destroy}
use okssystem.Descriptor.Table.{IsTable, Holds, open_descriptor-Holds}
use okssystem.MapFile.{
  Mapped, open_fd, close_fd, map_mem, unmap_mem, map, unmap, destroy_map, protection, map_shared,
}
use okssystem.MapFile.Mapping.{with_descriptor, destroy_map-none}

module _ {W : Type 0} (users : UserCalls W) (files : FileCalls W) (io : IoCalls W)
    (is_open : ℤ → W → Bool) (laws : IsTable io is_open) where
  -- The call of `open` in `map`.
  abbrev pub opened_file : Mapped W → Out W Descriptor
  opened_file s =
      open_descriptor users files io s.map_file.m_file
        (flags s.map_file.m_map_read s.map_file.m_map_write) s.map_file.m_map_permission s.world

  pub map_unopened :
      (s : Mapped W) (e : Issue) (w : W)
      → opened_file s ≡ err e w
      → map users files io s ≡ err e (record s { world = w })
  unfolding map open_fd
  map_unopened s e w h = ground (arith, h)

  pub map_opened :
      (s : Mapped W) (d : Descriptor) (w : W)
      → opened_file s ≡ ok d w
      → map users files io s ≡ map_mem users files io (with_descriptor users files io s d w)
  unfolding map open_fd
  map_opened s d w h = ground (arith, h)

  pub map_mem_keeps :
      (s : Mapped W) (d : Descriptor) (fd : ℤ)
      → s.map_file.m_map_descriptor ≡ some d
      → (is_open fd (state_of (map_mem users files io s)).world ≡ is_open fd s.world)
        × ((state_of (map_mem users files io s)).map_file.m_map_descriptor ≡ some d)
  unfolding map_mem
  map_mem_keeps s d fd h =
      let m = s.map_file in
      let same =
        laws.mmap_keeps fd m.m_map_size (protection m.m_map_read m.m_map_write) map_shared d.m_fd
          m.m_map_offset s.world in
      (ground (arith, h, same), ground (arith, h))

  -- What is open was open at the start, or is the descriptor of the object.
  unfoldable pub Accounted : W → Mapped W → Type 0
  Accounted start s =
      (fd : ℤ)
      → is_open fd s.world ≡ true
      → (is_open fd start ≡ true) ⊎ Holds s.map_file.m_map_descriptor fd

  pub map-Accounted :
      (s : Mapped W)
      → s.map_file.m_map_descriptor ≡ none
      → Accounted s.world (state_of (map users files io s))
  unfolding Accounted
  map-Accounted s none_held fd h =
      let holds =
        open_descriptor-Holds users files io is_open laws s.map_file.m_file
          (flags s.map_file.m_map_read s.map_file.m_map_write) s.map_file.m_map_permission s.world
          fd in
      elim (Out-cases (opened_file s)) [
        | inr (issue, w, e) ↦ elim (holds (rw e (rw (map_unopened s issue w e) at h))) [
          | inl old ↦ inl old
          | inr (d, again, held) ↦ absurd (ground (arith, e, again))
        ]
        | inl (d, w, e) ↦
            let (same, kept) = map_mem_keeps (with_descriptor users files io s d w) d fd refl in
            elim (holds (rw e (sym same ∙ rw (map_opened s d w e) at h))) [
              | inl old ↦ inl old
              | inr (d', again, (n, here, number)) ↦
                  let one : d'.m_fd ≡ d.m_fd = ground (arith, e, again) in
                  rw (map_opened s d w e) (rw kept (inr (n, here, sym one ∙ number)))
            ]
      ]

  close_fd_world :
      (s : Mapped W) (d : Descriptor) (fd : ℤ)
      → s.map_file.m_map_descriptor ≡ some d
      → is_open fd (state_of (close_fd users files io s)).world
        ≡ is_open fd (io.close d.m_fd s.world).1
  unfolding close_fd close destroy
  close_fd_world s d fd h = elim (Answer-cases (io.close d.m_fd s.world).0) [
    | inl (u, e) ↦ ground (arith, h, e)
    | inr (errno, e) ↦ ground (arith, h, e)
  ]

  -- Behind `close_fd` on an object with a descriptor, also if it throws, all that is open is old.
  close_fd_left :
      (start : W) (s : Mapped W) (d : Descriptor) (fd : ℤ)
      → s.map_file.m_map_descriptor ≡ some d
      → Accounted start s
      → is_open fd (state_of (close_fd users files io s)).world ≡ true
      → is_open fd start ≡ true
  unfolding Accounted
  close_fd_left start s d fd held acc left =
      let after = sym (close_fd_world s d fd held) ∙ left in
      elim (acc fd (laws.close_opens_none d.m_fd fd s.world after)) [
        | inl old ↦ old
        | inr holds ↦
            let (n, here, number) = rw held at holds in
            let gone : is_open fd (io.close d.m_fd s.world).1 ≡ false =
              ap (λ k. is_open k (io.close d.m_fd s.world).1) (here ∙ sym number)
              ∙ laws.closes d.m_fd s.world in
            absurd (ground (arith, gone, after))
      ]

  destroy_map-close_fd :
      (s : Mapped W) (d : Descriptor)
      → s.map_file.m_map_descriptor ≡ some d
      → destroy_map users files io s ≡ close_fd users files io s
  unfolding destroy_map
  destroy_map-close_fd s d e = ground (arith, e)

  -- Behind a destructor that returns, all that is open is old.
  pub destroy_map_left :
      (start : W) (s t : Mapped W) (fd : ℤ)
      → Accounted start s
      → destroy_map users files io s ≡ ok tt t
      → is_open fd t.world ≡ true
      → is_open fd start ≡ true
  unfolding Accounted
  destroy_map_left start s t fd acc destroyed left =
      elim (Option-cases s.map_file.m_map_descriptor) [
        | inl e ↦
            let same : t ≡ s = ground (arith, destroy_map-none users files io s e, destroyed) in
            elim (acc fd (ap (λ (u : Mapped W). is_open fd u.world) (sym same) ∙ left)) [
              | inl old ↦ old
              | inr held ↦ absurd (rw e at held)
            ]
        | inr (d, e) ↦
            let closed : close_fd users files io s ≡ ok tt t =
              sym (destroy_map-close_fd s d e) ∙ destroyed in
            close_fd_left start s d fd e acc (rw closed left)
      ]

  unmap_mem_keeps :
      (s : Mapped W) (fd : ℤ)
      → (is_open fd (state_of (unmap_mem users files io s)).world ≡ is_open fd s.world)
        × ((state_of (unmap_mem users files io s)).map_file.m_map_descriptor
            ≡ s.map_file.m_map_descriptor)
  unfolding unmap_mem
  unmap_mem_keeps s fd =
      let m = s.map_file in
      let same = laws.munmap_keeps fd m.m_map_address m.m_map_size s.world in
      (ground (arith, same), ground arith)

  unmap_mem-Accounted :
      (start : W) (s : Mapped W)
      → Accounted start s
      → Accounted start (state_of (unmap_mem users files io s))
  unfolding Accounted
  unmap_mem-Accounted start s acc fd h =
      let (same, kept) = unmap_mem_keeps s fd in rw kept (acc fd (sym same ∙ h))

  close_fd-Accounted :
      (start : W) (s : Mapped W)
      → Accounted start s
      → Accounted start (state_of (close_fd users files io s))
  unfolding Accounted close_fd
  close_fd-Accounted start s acc fd h = elim (Option-cases s.map_file.m_map_descriptor) [
    | inl e ↦
        let same : state_of (close_fd users files io s) ≡ s = ground (arith, e) in
        rw same (acc fd (rw same at h))
    | inr (d, e) ↦ inl (close_fd_left start s d fd e acc h)
  ]

  pub unmap-Accounted :
      (start : W) (s : Mapped W)
      → Accounted start s
      → Accounted start (state_of (unmap users files io s))
  unfolding unmap
  unmap-Accounted start s acc = elim (Out-cases (unmap_mem users files io s)) [
    | inl (u, t, e) ↦ rw e (close_fd-Accounted start t (rw e at (unmap_mem-Accounted start s acc)))
    | inr (issue, t, e) ↦ rw e (rw e at (unmap_mem-Accounted start s acc))
  ]

-- ===== src/MapFile/Mapping.antt =====
-- What `map` and `unmap` leave behind: the state of the object on every way out.
use okssystem.Prelude.{
  ℕ, ◌≡◌, ◌⊎◌, inl, inr, refl, ◌∙◌, true, false, none, some, arith, Issue, ok, err, Out-cases,
  bind_out-eq-ok,
}
use okssystem.Calls.{done, failed, UserCalls, FileCalls, IoCalls}
use okssystem.Descriptor.{Descriptor, open_descriptor, flags, close, destroy}
use okssystem.MapFile.{
  MapFile, Mapped, mapped_at, is_loaded, protection, open_fd, close_fd, map_mem, unmap_mem, map,
  unmap, destroy_map,
}

module _ {W : Type 0} (users : UserCalls W) (files : FileCalls W) (io : IoCalls W) where
  abbrev pub with_descriptor : Mapped W → Descriptor → W → Mapped W
  with_descriptor s d w = record {
    map_file = record s.map_file { m_map_descriptor = some d };
    world = w;
  }

  open_fd_cases :
      (s : Mapped W)
      → ((d : Descriptor) × (w : W) × (open_fd users files io s ≡ ok tt (with_descriptor s d w)))
        ⊎ ((e : Issue) × (w : W) × (open_fd users files io s ≡ err e (record s { world = w })))
  unfolding open_fd
  open_fd_cases s =
      let m = s.map_file in
      elim (Out-cases (
        open_descriptor users files io m.m_file (flags m.m_map_read m.m_map_write)
          m.m_map_permission s.world)) [
            | inl (d, w, e) ↦ inl (d, w, rw (e, open_fd) refl)
            | inr (issue, w, e) ↦ inr (issue, w, rw (e, open_fd) refl)
          ]

  pub map_mem-eq-ok :
      (s t : Mapped W)
      → map_mem users files io s ≡ ok tt t
      → (t.map_file.m_is_mapped ≡ true)
        × (is_loaded t.map_file ≡ true)
        × (t.map_file.m_map_descriptor ≡ s.map_file.m_map_descriptor)
  unfolding map_mem
  map_mem-eq-ok s t h = (ground arith, ground arith, ground arith)

  map_mem-eq-err :
      (s t : Mapped W) (d : Descriptor) (e : Issue)
      → s.map_file.m_map_descriptor ≡ some d
      → map_mem users files io s ≡ err e t
      → (t.map_file.m_is_mapped ≡ false) × (t.map_file.m_map_descriptor ≡ some d)
  unfolding map_mem
  map_mem-eq-err s t d e held h = (ground arith, ground arith)

  -- The three outcomes of `map`: the file is mapped, loaded and has a descriptor; or it could not be
  -- opened, and the object is as it was; or `mmap` failed, and the object is not mapped but keeps the
  -- open descriptor.
  pub map_outcome :
      (s : Mapped W)
      → ((d : Descriptor) × (t : Mapped W) × (map users files io s ≡ ok tt t)
          × (t.map_file.m_is_mapped ≡ true)
          × (is_loaded t.map_file ≡ true)
          × (t.map_file.m_map_descriptor ≡ some d))
        ⊎ (((e : Issue) × (t : Mapped W) × (map users files io s ≡ err e t)
              × (t.map_file ≡ s.map_file))
            ⊎ ((d : Descriptor) × (e : Issue) × (t : Mapped W) × (map users files io s ≡ err e t)
                × (t.map_file.m_is_mapped ≡ false)
                × (t.map_file.m_map_descriptor ≡ some d)))
  unfolding map open_fd map_mem
  map_outcome s = elim (open_fd_cases s) [
    | inr (e, w, h) ↦ inr (inl (e, record s { world = w }, rw h refl, refl))
    | inl (d, w, h) ↦ elim (Out-cases (map_mem users files io (with_descriptor s d w))) [
      | inl (u, t, k) ↦
          let (mapped, loaded, same) = map_mem-eq-ok (with_descriptor s d w) t k in
          inl (d, t, rw h k, mapped, loaded, same)
      | inr (e, t, k) ↦
          let (unmapped, kept) = map_mem-eq-err (with_descriptor s d w) t d e refl k in
          inr (inr (d, e, t, rw h k, unmapped, kept))
    ]
  ]

  unmap_mem-eq-ok :
      (s t : Mapped W)
      → unmap_mem users files io s ≡ ok tt t
      → (w : W) × (t ≡ mapped_at s.map_file.m_map_address false s w) × (is_loaded s.map_file ≡ true)
  unfolding unmap_mem
  unmap_mem-eq-ok s t h = (t.world, ground arith, ground arith)

  close_fd-eq-ok :
      (s t : Mapped W)
      → close_fd users files io s ≡ ok tt t
      → t.map_file ≡ record s.map_file { m_map_descriptor = none }
  unfolding close_fd
  close_fd-eq-ok s t h = ground arith

  unmap-eq-ok :
      (s t : Mapped W)
      → unmap users files io s ≡ ok tt t
      → (t.map_file ≡ record s.map_file { m_is_mapped = false; m_map_descriptor = none })
        × (is_loaded s.map_file ≡ true)
  unfolding unmap
  unmap-eq-ok s t h =
      let (u, v, freed, closed) = bind_out-eq-ok (unmap_mem users files io s) _ h in
      let (w, here, loaded) = unmap_mem-eq-ok s v freed in
      (close_fd-eq-ok v t closed ∙ rw here refl, loaded)

  pub destroy_map-none :
      (s : Mapped W) → s.map_file.m_map_descriptor ≡ none → destroy_map users files io s ≡ ok tt s
  unfolding destroy_map
  destroy_map-none s h = ground arith

  unmap_failure :
      (s : Mapped W) (errno : ℕ)
      → is_loaded s.map_file ≡ true
      → s.map_file.m_map_descriptor ≡ none
      → (io.munmap s.map_file.m_map_address s.map_file.m_map_size s.world).0 ≡ failed errno
      → (e : Issue) × (v : Mapped W) × (unmap users files io s ≡ err e v)
        × (v.map_file.m_is_mapped ≡ true)
        × (v.map_file.m_map_descriptor ≡ none)
  unfolding unmap unmap_mem
  unmap_failure s errno loaded closed h = elim (Out-cases (unmap users files io s)) [
    | inl (u, t, e) ↦ absurd (ground arith)
    | inr (issue, t, e) ↦ (issue, t, e, ground arith, ground arith)
  ]

  open_fd-eq-ok :
      (s t : Mapped W)
      → open_fd users files io s ≡ ok tt t
      → (d : Descriptor) × (open_descriptor users files io s.map_file.m_file
            (flags s.map_file.m_map_read s.map_file.m_map_write)
            s.map_file.m_map_permission
            s.world
          ≡ ok d t.world)
        × (t.map_file ≡ record s.map_file { m_map_descriptor = some d })
  unfolding open_fd
  open_fd-eq-ok s t h =
      let m = s.map_file in
      elim (Out-cases (
        open_descriptor users files io m.m_file (flags m.m_map_read m.m_map_write)
          m.m_map_permission s.world)) [
            | inl (d, w, e) ↦ (d, ground (arith, e), ground (arith, e))
            | inr (issue, w, e) ↦ absurd (ground (arith, e))
          ]

  map_mem_address :
      (s t : Mapped W) (d : Descriptor)
      → s.map_file.m_map_descriptor ≡ some d
      → map_mem users files io s ≡ ok tt t
      → (io.mmap s.map_file.m_map_size
            (protection s.map_file.m_map_read s.map_file.m_map_write)
            1
            d.m_fd
            s.map_file.m_map_offset
            s.world
          ≡ (done t.map_file.m_map_address, t.world))
        × (t.map_file.m_map_size ≡ s.map_file.m_map_size)
        × (t.map_file.m_map_descriptor ≡ some d)
  unfolding map_mem
  map_mem_address s t d held h = (ground arith, ground arith, ground arith)

  close_fd_world :
      (s t : Mapped W) (d : Descriptor)
      → s.map_file.m_map_descriptor ≡ some d
      → close_fd users files io s ≡ ok tt t
      → io.close d.m_fd s.world ≡ (done tt, t.world)
  unfolding close_fd close destroy
  close_fd_world s t d held h = ground arith

  unmap_mem_world :
      (s t : Mapped W)
      → unmap_mem users files io s ≡ ok tt t
      → (io.munmap s.map_file.m_map_address s.map_file.m_map_size s.world ≡ (done tt, t.world))
        × (t.map_file.m_map_descriptor ≡ s.map_file.m_map_descriptor)
  unfolding unmap_mem
  unmap_mem_world s t h = (ground arith, ground arith)

  -- What `map` acquires and `unmap` releases, with the states of the system in between: `map` opens
  -- the file by its modes, and maps its descriptor at the offset; `unmap` unmaps that address, with the
  -- size that was mapped, and then closes that descriptor.
  abbrev pub Releases : MapFile → W → W → W → ℕ → Type 0
  Releases m before between behind address =
      (d : Descriptor) × (opened : W) × (unmapped : W) × (open_descriptor users files io m.m_file
          (flags m.m_map_read m.m_map_write) m.m_map_permission before
        ≡ ok d opened)
      × (io.mmap m.m_map_size (protection m.m_map_read m.m_map_write) 1 d.m_fd m.m_map_offset opened
          ≡ (done address, between))
      × (io.munmap address m.m_map_size between ≡ (done tt, unmapped))
      × (io.close d.m_fd unmapped ≡ (done tt, behind))

  -- If `map` and then `unmap` return, `unmap` has unmapped the address that `mmap` gave and closed the
  -- descriptor that `map` opened, and nothing else was done between or behind (`Releases`). The object
  -- is not mapped and holds no descriptor, so that its destructor does nothing; but its address is
  -- the old one, and `is_loaded` still holds of it.
  pub unmap-map :
      (s t u : Mapped W)
      → map users files io s ≡ ok tt t
      → unmap users files io t ≡ ok tt u
      → (address : ℕ) × Releases s.map_file s.world t.world u.world address
        × (u.map_file.m_map_address ≡ address)
        × (u.map_file.m_is_mapped ≡ false)
        × (u.map_file.m_map_descriptor ≡ none)
        × (destroy_map users files io u ≡ ok tt u)
        × (is_loaded u.map_file ≡ true)
  unfolding map unmap
  unmap-map s t u h k =
      let (same, loaded) = unmap-eq-ok t u k in
      let (x, s1, opening, mapping) = bind_out-eq-ok (open_fd users files io s) _ h in
      let (d, opened, held) = open_fd-eq-ok s s1 opening in
      let (given, size, kept) = map_mem_address s1 t d (rw held refl) mapping in
      let (y, t1, freeing, closing) = bind_out-eq-ok (unmap_mem users files io t) _ k in
      let (freed, still) = unmap_mem_world t t1 freeing in
      let closed = close_fd_world t1 u d (still ∙ kept) closing in
      (
        t.map_file.m_map_address,
        (d, s1.world, t1.world, opened, rw held at given, rw (size, held) at freed, closed),
        rw same refl,
        rw same refl,
        rw same refl,
        destroy_map-none u (rw same refl),
        rw same loaded,
      )

  -- `unmap` unmaps the old address again if it is called twice: behind an `unmap` that returned, the
  -- next one calls `munmap` on the same address, and if that fails the object counts as mapped,
  -- without a descriptor.
  pub unmap_again :
      (s t : Mapped W) (errno : ℕ)
      → unmap users files io s ≡ ok tt t
      → (io.munmap s.map_file.m_map_address s.map_file.m_map_size t.world).0 ≡ failed errno
      → (e : Issue) × (v : Mapped W) × (unmap users files io t ≡ err e v)
        × (v.map_file.m_is_mapped ≡ true)
        × (v.map_file.m_map_descriptor ≡ none)
  unfolding unmap unmap_mem close_fd
  unmap_again s t errno h again =
      let (same, loaded) = unmap-eq-ok s t h in
      unmap_failure t errno (rw same loaded) (rw same refl) (rw same again)

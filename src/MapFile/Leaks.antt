-- ===== src/MapFile/Leaks.antt =====
-- The table of open descriptors behind `map` and the destructor.
use okssystem.Prelude.{
  ◌≡◌, ◌≢◌, inl, inr, refl, sym, ◌∙◌, Bool, true, false, none, some, arith, ℤ, ok, state_of,
  Out-cases, false_of_implies,
}
use okssystem.Calls.{Answer-cases, UserCalls, FileCalls, IoCalls}
use okssystem.Descriptor.{Descriptor, flags, close, destroy}
use okssystem.Descriptor.Table.{IsTable, open_descriptor_table}
use okssystem.MapFile.{Mapped, close_fd, map_mem, map, destroy_map}
use okssystem.MapFile.Mapping.{with_descriptor}
use okssystem.MapFile.Accounts.{
  opened_file, map_unopened, map_opened, map_mem_keeps, map-Accounted, destroy_map_left,
}

module _ {W : Type 0} (users : UserCalls W) (files : FileCalls W) (io : IoCalls W)
    (is_open : ℤ → W → Bool) (laws : IsTable io is_open) where
  destroy_map-some :
      (s t : Mapped W) (d : Descriptor) (fd : ℤ)
      → s.map_file.m_map_descriptor ≡ some d
      → destroy_map users files io s ≡ ok tt t
      → is_open fd t.world ≡ is_open fd (io.close d.m_fd s.world).1
  unfolding destroy_map close_fd close destroy
  destroy_map-some s t d fd h k = elim (Answer-cases (io.close d.m_fd s.world).0) [
    | inl (u, e) ↦ ground (arith, h, k, e)
    | inr (errno, e) ↦ ground (arith, h, k, e)
  ]

  -- A `map` on an object without a descriptor, whether it returns or throws, and a destructor that
  -- returns: no descriptor is open that was not open before.
  pub destroy_map-map :
      (s t : Mapped W) (fd : ℤ)
      → s.map_file.m_map_descriptor ≡ none
      → destroy_map users files io (state_of (map users files io s)) ≡ ok tt t
      → is_open fd s.world ≡ false
      → is_open fd t.world ≡ false
  destroy_map-map s t fd none_held destroyed free =
      false_of_implies _ _
        (destroy_map_left users files io is_open laws s.world (state_of (map users files io s)) t fd
          (map-Accounted users files io is_open laws s none_held) destroyed)
        free

  -- A second `map` on an object that holds an open descriptor, if it returns and is given another
  -- number: the old descriptor is still open behind a destructor that returns.
  pub destroy_map-map_again :
      (s t u : Mapped W) (d d' : Descriptor)
      → s.map_file.m_map_descriptor ≡ some d
      → is_open d.m_fd s.world ≡ true
      → map users files io s ≡ ok tt t
      → t.map_file.m_map_descriptor ≡ some d'
      → d.m_fd ≢ d'.m_fd
      → destroy_map users files io t ≡ ok tt u
      → is_open d.m_fd u.world ≡ true
  destroy_map-map_again s t u d d' held here mapped held' other destroyed =
      elim (Out-cases (opened_file users files io is_open laws s)) [
        | inr (issue, w, e) ↦
            absurd (ground (arith, mapped, map_unopened users files io is_open laws s issue w e))
        | inl (d2, w, e) ↦
            let m = s.map_file in
            let i_flags = flags m.m_map_read m.m_map_write in
            let s2 = with_descriptor users files io s d2 w in
            let result : map_mem users files io s2 ≡ ok tt t =
              sym (map_opened users files io is_open laws s d2 w e) ∙ mapped in
            let same = (map_mem_keeps users files io is_open laws s2 d2 d.m_fd refl).0 in
            let still : is_open d.m_fd t.world ≡ is_open d.m_fd w = rw result at same in
            let fresh : is_open d.m_fd w ≡ true =
              (rw e at (
                open_descriptor_table users files io is_open laws m.m_file i_flags
                  m.m_map_permission s.world d.m_fd))
              ∙ laws.opens_keep m.m_file.full_name i_flags m.m_map_permission s.world d.m_fd here in
            destroy_map-some t u d' d.m_fd held' destroyed
            ∙ laws.close_keeps d'.m_fd d.m_fd t.world other
            ∙ still
            ∙ fresh
      ]

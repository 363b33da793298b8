-- ===== src/OksSystemTest/Mapping.antt =====
-- The descriptors that are open behind `test_map_file`.
use okssystem.Prelude.{
  ◌≡◌, inl, inr, refl, Bool, true, false, false_of_implies, none, Bool-cases, ◌%◌, ◌==◌, ◌⊎◌, ◌>>◌,
  ℤ, Out, Out-cases, ok, err, state_of, Issue,
}
use okssystem.Calls.{UserCalls, FileCalls, IoCalls}
use okssystem.File.Names.{starts_with_slash}
use okssystem.File.Object.{File}
use okssystem.File.Copies.{file_of_absolute}
use okssystem.Descriptor.Table.{IsTable}
use okssystem.MapFile.{MapFile, Mapped, map_file_of, map, unmap, destroy_map}
use okssystem.MapFile.Accounts.{Accounted, map-Accounted, unmap-Accounted, destroy_map_left}
use okssystem.OksSystemTest.{Scope, passes, terminates, end_scope, test_map_file}

module _ {W : Type 0} (users : UserCalls W) (files : FileCalls W) (io : IoCalls W)
    (is_open : ℤ → W → Bool) (laws : IsTable io is_open) where
  -- What holds of the system behind the block, if the program has not ended.
  abbrev pub Behind : {A : Type 0} → (W → Type 0) → Scope W A → Type 0
  Behind P (passes o) = P (state_of o)
  Behind P (terminates w) = Unit

  -- The constructor leaves the system as it is.
  map_file_of-world :
      (f : File) (w : W)
      → starts_with_slash f.full_name ≡ true
      → ((m : MapFile) × (map_file_of users files io f.full_name 4096 0 true false 0o666 w ≡ ok m w)
          × (m.m_map_descriptor ≡ none))
        ⊎ ((e : Issue) × (map_file_of users files io f.full_name 4096 0 true false 0o666 w
              ≡ err e w))
  unfolding map_file_of
  map_file_of-world f w long =
      let (f', made) = file_of_absolute users files f.full_name w long in
      elim (Bool-cases (4096 % io.getpagesize w == 0)) [
        | inr e ↦ inr (Issue.assertion, rw (made, map_file_of) (rw e refl))
        | inl e ↦ elim (Bool-cases (0 % io.getpagesize w == 0)) [
          | inr e' ↦ inr (Issue.assertion, rw (made, map_file_of) (rw (e, e') refl))
          | inl e' ↦ inl (
            record {
              m_file = f';
              m_map_address = 0;
              m_map_size = 4096;
              m_map_offset = 0;
              m_map_descriptor = none;
              m_map_permission = 0o666;
              m_map_read = true;
              m_map_write = false;
              m_is_mapped = false;
            },
            rw (made, map_file_of) (rw (e, e') refl),
            refl,
          )
        ]
      ]

  end_scope-Behind :
      {A : Type 0} (start : W) (o : Out (Mapped W) A) (fd : ℤ)
      → is_open fd start ≡ false
      → Accounted users files io is_open laws start (state_of o)
      → Behind (λ w. is_open fd w ≡ false) (end_scope (destroy_map users files io) o)
  end_scope-Behind start (ok a s) fd free acc = elim (Out-cases (destroy_map users files io s)) [
    | inl (u, t, e) ↦ rw e (
        false_of_implies _ _ (destroy_map_left users files io is_open laws start s t fd acc e) free)
    | inr (issue, t, e) ↦ rw e tt
  ]
  end_scope-Behind start (err issue s) fd free acc =
      elim (Out-cases (destroy_map users files io s)) [
        | inl (u, t, e) ↦ rw e (
            false_of_implies _ _ (destroy_map_left users files io is_open laws start s t fd acc e)
              free)
        | inr (issue', t, e) ↦ rw e tt
      ]

  unmap-map-Accounted :
      (s : Mapped W)
      → s.map_file.m_map_descriptor ≡ none
      → Accounted users files io is_open laws s.world
          (state_of ((map users files io >> unmap users files io) s))
  unmap-map-Accounted s none_held =
      let acc = map-Accounted users files io is_open laws s none_held in
      elim (Out-cases (map users files io s)) [
        | inl (u, t, e) ↦ rw e (unmap-Accounted users files io is_open laws s.world t (rw e at acc))
        | inr (issue, t, e) ↦ rw e (rw e at acc)
      ]

  -- If the calls treat the table of descriptors as `IsTable` says: however the mapping of a file with
  -- an absolute name, its unmapping and its destruction end, whichever of them throw, no descriptor
  -- is open behind `test_map_file` that was not open before, unless the destructor throws, which ends
  -- the program.
  pub test_map_file-Behind :
      (f : File) (w : W) (fd : ℤ)
      → starts_with_slash f.full_name ≡ true
      → is_open fd w ≡ false
      → Behind (λ v. is_open fd v ≡ false) (test_map_file users files io f w)
  unfolding test_map_file
  test_map_file-Behind f w fd long free = elim (map_file_of-world f w long) [
    | inl (m, e, none_held) ↦
        let s : Mapped W = record { map_file = m; world = w } in
        let step : test_map_file users files io f w
            ≡ end_scope (destroy_map users files io)
                ((map users files io >> unmap users files io) s) =
          rw (e, test_map_file) refl in
        rw step (
          end_scope-Behind w ((map users files io >> unmap users files io) s) fd free
            (unmap-map-Accounted s none_held))
    | inr (issue, e) ↦
        let step : test_map_file users files io f w ≡ passes (err issue w) =
          rw (e, test_map_file) refl in
        rw step free
  ]

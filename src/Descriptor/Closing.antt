-- ===== src/Descriptor/Closing.antt =====
-- Who closes a descriptor, and what the open flags ask for.
use okssystem.Prelude.{
  ◌≡◌, ◌⊎◌, ◌%◌, inl, inr, refl, Bool, true, false, if◌then◌else◌, negsuc, is_negative, Issue,
  close_file_issue, ok, err,
}
use okssystem.Calls.{Answer-cases, IoCalls}
use okssystem.File.Pretty.{has_bit, o_creat}
use okssystem.Descriptor.{Descriptor, Held, flags, close, close_safe, destroy}

-- `flags` asks for the access that the two modes name, where no mode is the same as reading, and
-- for the file to be made exactly if it is to be written.
pub flags_access :
    (read_mode write_mode : Bool)
    → (flags read_mode write_mode % 4 ≡ (if write_mode then (if read_mode then 2 else 1) else 0))
      × (has_bit (flags read_mode write_mode) o_creat ≡ write_mode)
unfolding flags
flags_access true true = (refl, refl)
flags_access true false = (refl, refl)
flags_access false true = (refl, refl)
flags_access false false = (refl, refl)

module _ {W : Type 0} (io : IoCalls W) where
  -- Either `close` succeeds, and the destructor behind it does nothing, or it throws, and the
  -- destructor tries to close the descriptor again, if it has a valid number.
  pub destroy-close :
      (held : Held W)
      → ((s : Held W) × (close io held ≡ ok tt s) × (destroy io s ≡ s.world))
        ⊎ ((e : Issue) × (s : Held W) × (close io held ≡ err e s)
            × (s.descriptor ≡ held.descriptor)
            × (is_negative held.descriptor.m_fd ≡ false
                → destroy io s ≡ close_safe io held.descriptor s.world))
  unfolding close destroy close_safe
  destroy-close held = elim (Answer-cases (io.close held.descriptor.m_fd held.world).0) [
    | inl (u, e) ↦ inl (
      record {
        descriptor = record held.descriptor { m_fd = negsuc 0 };
        world = (io.close held.descriptor.m_fd held.world).1;
      },
      rw (e, close) refl,
      refl,
    )
    | inr (errno, e) ↦ inr (
      close_file_issue errno held.descriptor.m_name,
      record held { world = (io.close held.descriptor.m_fd held.world).1 },
      rw (e, close) refl,
      refl,
      λ valid. rw valid refl,
    )
  ]

  -- `close_safe` does not mark the descriptor as closed: the destructor closes the same number
  -- again, which another file may have got in the meantime.
  pub destroy-close_safe :
      (d : Descriptor) (w : W)
      → is_negative d.m_fd ≡ false
      → destroy io (record { descriptor = d; world = close_safe io d w })
        ≡ close_safe io d (close_safe io d w)
  unfolding destroy
  destroy-close_safe d w h = rw h refl

-- ===== src/Tests/Mappings.antt =====
-- The theorems on descriptors and mapped files, in the small system.
use okssystem.Prelude.{
  ℕ, ◌≡◌, refl, Bool, true, false, Option, none, some, [], ◌∷◌, codes, pos, ok, Text, length, ◌++◌,
  replicate, arith,
}
use okssystem.File.Object.{exists}
use okssystem.Descriptor.{Descriptor, Held, close, destroy, open_descriptor}
use okssystem.MapFile.{
  MapFile, Mapped, is_loaded, map, unmap, map_mem, unmap_mem, open_fd, close_fd, destroy_map,
  zero_file,
}
use okssystem.MapFile.Mapping.{Releases, unmap-map}
use okssystem.MapFile.Zeros.{IsDisk, zero_file_lem}
use okssystem.Calls.{done, IoCalls}
use okssystem.Tests.World.{World, users, files, io, bare_users, bare_files, bare_io}

abbrev third : Descriptor
third = record { m_fd = pos 3; m_name = codes "/data" }

abbrev held_third : Held World
held_third = record { descriptor = third; world = [] }

abbrev data_file : Option Descriptor → ℕ → Bool → MapFile
data_file descriptor address mapped = record {
  m_file = record { full_name = codes "/data" };
  m_map_address = address;
  m_map_size = 4096;
  m_map_offset = 0;
  m_map_descriptor = descriptor;
  m_map_permission = 0o644;
  m_map_read = true;
  m_map_write = true;
  m_is_mapped = mapped;
}

abbrev fresh : Mapped World
fresh = record { map_file = data_file none 0 false; world = [] }

abbrev loaded : Mapped World
loaded = record { map_file = data_file (some third) 4096 true; world = codes "map" ∷ [] }

abbrev released : Mapped World
released = record { map_file = data_file none 4096 false; world = [] }

unmap-map_example :
    (address : ℕ) × Releases users files io fresh.map_file [] loaded.world [] address
    × (4096 ≡ address)
    × (false ≡ false)
    × (◌≡◌ {A = Option Descriptor} none none)
    × (destroy_map users files io released ≡ ok tt released)
    × (is_loaded released.map_file ≡ true)
unfolding map unmap open_fd map_mem unmap_mem close_fd open_descriptor exists close destroy
unmap-map_example = unmap-map users files io fresh loaded released refl refl

-- A system with pages of four bytes, whose state is what has been written.
abbrev disk : IoCalls Text
disk = record bare_io {
  write = λ fd bytes w. (done (length bytes), w ++ bytes);
  getpagesize = λ w. 4;
}

disk-IsDisk : IsDisk disk (λ w. w) 4
disk-IsDisk = record {
  pages = λ w. refl;
  opens = λ name f p w. (3, refl);
  open_keeps = λ name f p w. refl;
  fchmod_keeps = λ fd p w. refl;
  writes = λ fd bytes w. (length bytes, refl, refl);
  closes = λ fd w. (refl, refl);
}

abbrev swap_file : MapFile
swap_file = record {
  m_file = record { full_name = codes "/swap" };
  m_map_address = 0;
  m_map_size = 8;
  m_map_offset = 4;
  m_map_descriptor = none;
  m_map_permission = 0o600;
  m_map_read = true;
  m_map_write = true;
  m_is_mapped = false;
}

zero_file_lem_example :
    (v : Text) × (zero_file bare_users bare_files disk swap_file [] ≡ ok tt v)
    × (v ≡ replicate 12 0)
zero_file_lem_example =
    zero_file_lem bare_users bare_files disk (λ w. w) 4 disk-IsDisk swap_file [] refl (omega arith)
      (omega arith) (omega arith) (omega arith)

-- ===== src/File/Object/Types.antt =====
-- What the tests of a mode say of the type of the file, which a mode holds in its bits 12 to 15.
use okssystem.Prelude.{ℕ, ◌/◌, ◌%◌, ◌≡◌, ◌↔◌, ◌⊎◌, true, arith}
use okssystem.File.Object.{mode_is_regular, mode_is_directory, mode_is_fifo}

-- `S_IFMT`: 1 is a FIFO, 2 a character device, 4 a directory, 6 a block device, 8 a regular file,
-- 10 a symbolic link, 12 a socket.
abbrev pub file_type_bits : ℕ → ℕ
file_type_bits mode = mode / 4096 % 16

abbrev pub IsFileType : ℕ → Type 0
IsFileType t = (t ≡ 1) ⊎ ((t ≡ 2) ⊎ ((t ≡ 4) ⊎ ((t ≡ 6) ⊎ ((t ≡ 8) ⊎ ((t ≡ 10) ⊎ (t ≡ 12))))))

-- For the types that POSIX has: `is_directory` also holds of block devices and of sockets,
-- `is_regular` also of symbolic links and of sockets, and `is_fifo` of FIFOs alone.
pub mode_tests :
    (mode : ℕ)
    → IsFileType (file_type_bits mode)
    → ((mode_is_directory mode ≡ true)
        ↔ ((file_type_bits mode ≡ 4) ⊎ ((file_type_bits mode ≡ 6) ⊎ (file_type_bits mode ≡ 12))))
      × ((mode_is_regular mode ≡ true)
          ↔ ((file_type_bits mode ≡ 8) ⊎ ((file_type_bits mode ≡ 10) ⊎ (file_type_bits mode ≡ 12))))
      × ((mode_is_fifo mode ≡ true) ↔ (file_type_bits mode ≡ 1))
mode_tests mode h = ground arith

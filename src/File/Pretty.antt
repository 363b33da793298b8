-- ===== src/File/Pretty.antt =====
-- src/File.cpp: the descriptions for people: permissions, open flags, sizes. The masks are those of
-- <sys/stat.h> and <fcntl.h> on Linux; each is one bit, and `x & mask` is tested as that bit of `x`.
pub mod Permissions
pub mod Sizes
use okssystem.Prelude.{
  ℕ, zero, suc, ◌+◌, ◌*◌, ◌/◌, ◌%◌, ◌^◌, Bool, true, false, ◌&&◌, not, List, [], ◌∷◌, ◌++◌, ltb,
  ◌==◌, if◌then◌else◌, Text, codes, decimal, print_number, print_int,
}

-- `x & mask`, for a mask of one bit.
abbrev pub has_bit : ℕ → ℕ → Bool
has_bit x mask = x / mask % 2 == 1

-- `FILE_FLAG_STR`
abbrev pub nothing_char_code : ℕ
nothing_char_code = b'-'

abbrev pub read_char_code : ℕ
read_char_code = b'r'

abbrev pub write_char_code : ℕ
write_char_code = b'w'

abbrev pub execute_char_code : ℕ
execute_char_code = b'x'

abbrev pub setuid_char_code : ℕ
setuid_char_code = b'S'

-- `(permissions & mask) ? code : NOTHING_CHAR_CODE`
abbrev pub flag_char : ℕ → ℕ → ℕ → ℕ
flag_char permissions mask code = if has_bit permissions mask then code else nothing_char_code

unfoldable pub pretty_permissions : ℕ → Text
pretty_permissions permissions =
    flag_char permissions 0o4000 setuid_char_code
    ∷ flag_char permissions 0o400 read_char_code
    ∷ flag_char permissions 0o200 write_char_code
    ∷ flag_char permissions 0o100 execute_char_code
    ∷ flag_char permissions 0o40 read_char_code
    ∷ flag_char permissions 0o20 write_char_code
    ∷ flag_char permissions 0o10 execute_char_code
    ∷ flag_char permissions 0o4 read_char_code
    ∷ flag_char permissions 0o2 write_char_code
    ∷ flag_char permissions 0o1 execute_char_code
    ∷ []

-- `File::to_string(mode_t)`: octal.
unfoldable pub permissions_string : ℕ → Text
unfolding print_number
permissions_string permissions = print_number 8 permissions

-- The bits of the open flags: `O_WRONLY`, `O_RDWR`, `O_CREAT`, `O_EXCL`, `O_TRUNC`, `O_APPEND`,
-- `O_NONBLOCK`.
abbrev pub o_wronly : ℕ
o_wronly = 0o1

abbrev pub o_rdwr : ℕ
o_rdwr = 0o2

abbrev pub o_creat : ℕ
o_creat = 0o100

abbrev pub o_excl : ℕ
o_excl = 0o200

abbrev pub o_trunc : ℕ
o_trunc = 0o1000

abbrev pub o_append : ℕ
o_append = 0o2000

abbrev pub o_nonblock : ℕ
o_nonblock = 0o4000

-- `if (flags & mask) flag_str << "/" << name`
abbrev pub open_word : ℕ → ℕ → Text → Text
open_word flags mask name = if has_bit flags mask then b'/' ∷ name else []

abbrev pub access_word : ℕ → Text
access_word flags =
    if has_bit flags o_wronly
    then codes "WRITE"
    else if has_bit flags o_rdwr
    then codes "READ-WRITE"
    else codes "READ"

unfoldable pub pretty_open_flag : ℕ → Text
unfolding print_number
pretty_open_flag flags =
    access_word flags
    ++ (open_word flags o_nonblock (codes "NOBLOCK")
        ++ (open_word flags o_append (codes "APPEND")
            ++ (open_word flags o_creat (codes "CREATE")
                ++ (open_word flags o_trunc (codes "TRUNCATE")
                    ++ (open_word flags o_excl (codes "EXCLUSIVE")
                        ++ (b'(' ∷ (decimal flags ++ b')' ∷ [])))))))

-- `KILOBYTE`
abbrev pub kilobyte : ℕ
kilobyte = 1024

-- `unit`, for orders whose value fits in an `int`; `pretty_size` asks for 0 to 3.
unfoldable pub unit : ℕ → ℕ
unit zero = 1
unit (suc u) = kilobyte * unit u

-- `HUMAN_SIZE_STR`
abbrev pub human_size_str : ℕ → Text
human_size_str zero = codes "B"
human_size_str (suc zero) = codes "KB"
human_size_str (suc (suc zero)) = codes "MB"
human_size_str (suc (suc (suc u))) = codes "GB"

-- The loop of `pretty_size` for the orders `i - 1` to 0: the amounts that it writes, with their
-- orders. `size > size_unit && !(cut_small && writen_something)`.
unfoldable pub size_items : ℕ → ℕ → Bool → Bool → List (ℕ × ℕ)
unfolding unit
size_items zero size cut_small writen = []
size_items (suc i) size cut_small writen = elim (ltb (unit i) size && not (cut_small && writen)) [
  | true ↦ (size / unit i, i) ∷ size_items i (size % unit i) cut_small true
  | false ↦ size_items i size cut_small writen
]

-- `size_str << amount << ' ' << HUMAN_SIZE_STR[i]`, where `amount` is an `int`.
unfoldable pub write_items : List (ℕ × ℕ) → Text
unfolding print_int
write_items [] = []
write_items ((amount, i) ∷ items) =
    print_int amount ++ (b' ' ∷ (human_size_str i ++ write_items items))

unfoldable pub pretty_size : ℕ → Bool → Text
unfolding size_items write_items
pretty_size size cut_small =
    if size == 0 then b'0' ∷ [] else write_items (size_items 4 size cut_small false)

-- ===== src/File/Names.antt =====
-- src/File.cpp: the functions on paths and urls, and `File::parent_name`.
pub mod Parts
pub mod Depth
use okssystem.Prelude.{
  ℕ, zero, suc, ◌+◌, Bool, true, false, Option, none, some, [], ◌∷◌, ltb, ◌==◌, if◌then◌else◌,
  length, take, drop, Text, codes, text_eq, is_empty, find, rfind, ℤ, pos, negsuc,
}

-- `SLASH_CHAR`, `COLON_CHAR`, `DOT_CHAR`, and the newline
abbrev pub slash_char : ℕ
slash_char = b'/'

abbrev pub colon_char : ℕ
colon_char = b':'

abbrev pub dot_char : ℕ
dot_char = b'.'

abbrev pub newline : ℕ
newline = 10

-- `FILE_PROTOCOL`
abbrev pub file_protocol : Text
file_protocol = codes "file"

unfoldable pub protocol : Text → Text
unfolding find
protocol url = elim (find colon_char url) [ none ↦ [] | some colon ↦ take colon url ]

unfoldable pub extension : Text → Text
unfolding rfind
extension url = elim (rfind dot_char url) [ none ↦ [] | some dot ↦ drop (suc dot) url ]

unfoldable pub short_name : Text → Text
unfolding rfind
short_name url = elim (rfind slash_char url) [ none ↦ url | some slash ↦ drop (suc slash) url ]

unfoldable pub uri : Text → Text
unfolding find
uri url = elim (find colon_char url) [ none ↦ url | some colon ↦ drop (suc colon) url ]

-- The loop of `depth`; the first argument bounds its rounds.
unfoldable pub count_slashes : ℕ → Text → ℕ → ℕ
unfolding find
count_slashes zero rest count = count
count_slashes (suc rounds) rest count = elim (is_empty rest) [
  | true ↦ count
  | false ↦ elim (find slash_char rest) [
    | none ↦ count
    | some slash ↦ count_slashes rounds (drop (suc slash) rest) (count + 1)
  ]
]

-- `path[0] == SLASH_CHAR`
abbrev pub starts_with_slash : Text → Bool
starts_with_slash [] = false
starts_with_slash (c ∷ path) = c == slash_char

-- `depth` with a bound on the calls of itself, which are on the uri of an url.
unfoldable pub depth_bounded : ℕ → Text → ℤ
unfolding count_slashes protocol uri
depth_bounded zero path = negsuc 0
depth_bounded (suc calls) path = elim (starts_with_slash path) [
  | true ↦ pos (count_slashes (length path) (drop 1 path) 0)
  | false ↦ elim (text_eq (protocol path) file_protocol) [
    | true ↦ depth_bounded calls (uri path)
    | false ↦ negsuc 0
  ]
]

unfoldable pub depth : Text → ℤ
unfolding depth_bounded
depth path = depth_bounded (suc (length path)) path

-- `nl > 0` holds of `npos`, and `substr(0, npos)` is the whole text.
unfoldable pub first_line : Text → Text
unfolding find
first_line text = elim (find newline text) [
  | none ↦ text
  | some nl ↦ if ltb 0 nl then take nl text else text
]

-- `File::parent_name` on the full name of the file.
unfoldable pub parent_name : Text → Text
unfolding rfind
parent_name full_name = elim (rfind slash_char full_name) [
  | none ↦ slash_char ∷ []
  | some slash ↦ if slash == 0 then slash_char ∷ [] else take slash full_name
]

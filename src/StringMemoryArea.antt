-- ===== src/StringMemoryArea.antt =====
-- src/StringMemoryArea.cpp: variable length strings in one memory area. The virtual methods of the
-- class (the two pointers, the offset of the last string and the size) are the fields of a record:
-- both pointers show the same bytes, and the read pointer may be NULL.
pub mod Memory
pub mod Strings
pub mod Replace
pub mod Insert
pub mod Vectors
pub mod Maps
pub mod Variables
use mathlib.Core.Option
use okssystem.Prelude.{
  ℕ, zero, suc, ◌+◌, ◌%◌, ◌^◌, Bool, true, false, ◌&&◌, Option, none, some, List, [], ◌∷◌, ◌++◌,
  map, leb, ◌==◌, if◌then◌else◌, length, take, drop, Text, M, ok, err, pure, throw, ◌>>=◌, ◌>>◌,
  ensure, assertion, memory_fault,
}

pub record Area : Type 0 where
  -- What `string_area_write()` points to, from there to the end of the memory.
  pub memory : Text
  -- `string_area_read()` is not NULL.
  pub readable : Bool
  pub last_string : ℕ
  pub string_area_size : ℕ

-- `offset_t` is `unsigned int`, and `size_t` has 64 bits.
abbrev pub offset_t : ℕ → ℕ
offset_t n = n % 2 ^ 32

abbrev pub size_t : ℕ → ℕ
size_t n = n % 2 ^ 64

-- What a `char*` to these bytes is as a C string.
unfoldable pub c_str : Text → Text
c_str [] = []
c_str (x ∷ s) = if x == 0 then [] else x ∷ c_str s

-- The C string at the start of these bytes; `none` if no NUL ends it.
unfoldable pub c_string : Text → Option Text
c_string [] = none
c_string (x ∷ s) = if x == 0 then some [] else Option.map (λ t. x ∷ t) (c_string s)

abbrev pub overwrite : ℕ → Text → Text → Text
overwrite i bytes memory = take i memory ++ (bytes ++ drop (i + length bytes) memory)

-- `strcpy(&data[i], s)` and its terminator. What of it lies behind the end of the memory is written
-- there, outside of the area, and the program goes on.
unfoldable pub store : ℕ → Text → M Area (Unit {0})
store i s a =
    if leb (i + length s + 1) (length a.memory)
    then ok tt (record a { memory = overwrite i (s ++ 0 ∷ []) a.memory })
    else ok tt (record a { memory = take (length a.memory) (overwrite i (s ++ 0 ∷ []) a.memory) })

abbrev pub set_last_string : ℕ → M Area (Unit {0})
set_last_string n a = ok tt (record a { last_string = n })

-- `ERS_RANGE_CHECK(1, offset, string_area_size())`
abbrev pub in_range : ℕ → Area → Bool
in_range offset a = leb 1 offset && leb offset a.string_area_size

-- `add`. The argument is a pointer, which may be null.
unfoldable pub add : Option Text → M Area ℕ
unfolding store
add none a = err assertion a
add (some str) a =
    let l = length (c_str str) in
    let start = offset_t (a.last_string + 1) in
    let end = offset_t (size_t (start + l)) in
    (do ensure (in_range end a); store start (c_str str); set_last_string end; pure start) a

-- The loop of `clear` over the bytes from the offset: the number of bytes that it zeroes, and what
-- it leaves. `none` if it runs out of the memory: then all bytes up to the end are zeroed.
unfoldable pub zero_run : Text → Option (ℕ × Text)
zero_run [] = none
zero_run (x ∷ s) =
    if x == 0 then some (0, x ∷ s) else Option.map (λ (n, t). (suc n, 0 ∷ t)) (zero_run s)

unfoldable pub clear : ℕ → M Area ℕ
unfolding zero_run
clear offset a = elim (zero_run (drop offset a.memory)) [
  | none ↦
      err memory_fault
        (record a { memory = take offset a.memory ++ map (λ x. 0) (drop offset a.memory) })
  | some (n, t) ↦ ok n (record a { memory = take offset a.memory ++ t })
]

-- A pointer into the area is its offset; `none` is the null pointer.
unfoldable pub get_string : ℕ → M Area (Option ℕ)
get_string offset a =
    if offset == 0
    then ok none a
    else (do ensure (in_range offset a); pure (if a.readable then some offset else none)) a

-- `std::string text(str)`
unfoldable pub read_text : ℕ → M Area Text
read_text p a = elim (c_string (drop p a.memory)) [ none ↦ err memory_fault a | some t ↦ ok t a ]

-- `insert(offset_t, const char*)` behind the call of `clear`.
unfoldable pub insert_cleared : ℕ → Text → ℕ → M Area ℕ
unfolding add store
insert_cleared offset str available =
    if leb (length (c_str str)) available
    then store offset (c_str str) >> pure offset
    else add (some str)

unfoldable pub insert : ℕ → Option Text → M Area ℕ
unfolding insert_cleared clear
insert offset none a = err assertion a
insert offset (some str) a =
    if offset == 0
    then add (some str) a
    else (do
      ensure (in_range offset a)
      available ← clear offset
      insert_cleared offset str available)
        a

-- `insert(offset_t*, const char*)`: the value that the caller's variable has afterwards.
unfoldable pub insert_ref : Option ℕ → Option Text → M Area ℕ
unfolding insert
insert_ref none str a = err assertion a
insert_ref (some offset) str a = insert offset str a

-- ===== src/StringResize.antt =====
-- include/rest_rpc/string_resize.hpp: `detail::resize`, which sets the size of a `std::string` or a
-- `std::vector<char>` without initialising what it adds, by a way that depends on the standard library.
pub mod Contents
mod Examples
use rest_rpc.Base.{
  ℕ, zero, suc, ◌+◌, ◌-◌, ◌*◌, ◌/◌, ◌≤◌, ◌<◌, ◌≡◌, Bool, true, false, ltb, if◌then◌else◌, List,
  length, get_or, set_at,
}

-- A string or vector: the bytes of its allocation, a string's with one for the terminator, and its
-- size in bytes.
pub record Buffer : Type 0 where
  pub cells : List ℕ
  pub size : ℕ

-- The library's `reserve` into so many cells: they are there afterwards, the size stays, and so do
-- the bytes up to it; what the others hold is unspecified.
pub record Allocator : Type 0 where
  pub reserve : ℕ → Buffer → Buffer
  pub reserve-fits : (n : ℕ) (b : Buffer) → n ≤ length (reserve n b).cells
  pub reserve-size : (n : ℕ) (b : Buffer) → (reserve n b).size ≡ b.size
  pub reserve-keeps :
      (n : ℕ) (b : Buffer) (i : ℕ)
      → i < b.size
      → get_or (reserve n b).cells i 0 ≡ get_or b.cells i 0

-- The standard libraries of the conditional compilation: the ones whose private members are known,
-- libc++ with the address sanitizer apart, and any other.
pub data Library : Type 0 where
  msvc_stl libcpp libcpp_with_asan old_libstdcpp libstdcpp unknown_library : Library

-- `capacity` of a string.
abbrev pub capacity : Buffer → ℕ
capacity str = length str.cells - 1

-- `str[i] = c`.
abbrev pub put : ℕ → ℕ → Buffer → Buffer
put i c str = record str { cells = set_at i c str.cells }

-- `string_set_length_hacker`: the member that is reached sets the size, and libstdc++'s write the
-- terminator as well. Where there is none, it is not declared.
unfoldable pub string_set_length_hacker : Library → ℕ → Buffer → Buffer
string_set_length_hacker old_libstdcpp sz self = put sz 0 (record self { size = sz })
string_set_length_hacker libstdcpp sz self = put sz 0 (record self { size = sz })
string_set_length_hacker _ sz self = record self { size = sz }

unfoldable pub room_for : Allocator → ℕ → Buffer → Buffer
room_for memory sz str = if ltb (capacity str) sz then memory.reserve (suc sz) str else str

-- So many zeros from a position on.
unfoldable pub put_zeros : ℕ → ℕ → Buffer → Buffer
put_zeros zero i str = str
put_zeros (suc n) i str = put_zeros n (suc i) (put i 0 str)

-- The library's `resize`, which fills what it adds with zeros.
unfoldable pub string_resize : Allocator → ℕ → Buffer → Buffer
string_resize memory sz str =
    put sz 0 (record (put_zeros (sz - str.size) str.size (room_for memory sz str)) { size = sz })

-- `resize` of a `std::basic_string`, where the members are reached or the library's own is called.
resize_by_members : Library → Allocator → ℕ → Buffer → Buffer
resize_by_members unknown_library memory sz raw_str = string_resize memory sz raw_str
resize_by_members library memory sz raw_str =
    put sz 0 (string_set_length_hacker library sz (room_for memory sz raw_str))

-- ... and where the library has `resize_and_overwrite`, which makes room, leaves what it adds as it is,
-- takes the size that the operation returns, and ends the string.
unfoldable pub resize_string : Bool → Library → Allocator → ℕ → Buffer → Buffer
unfolding resize_by_members
resize_string true library memory sz raw_str =
    put sz 0 (record (room_for memory sz raw_str) { size = sz })
resize_string false library memory sz raw_str = resize_by_members library memory sz raw_str

-- `vector_set_length_hacker`: the pointer to the end is `data() + sz`.
unfoldable pub vector_set_length_hacker : ℕ → Buffer → Buffer
vector_set_length_hacker sz self = record self { size = sz }

-- Whether `resize` of a vector reaches the library's members.
unfoldable pub vector_members_known : Library → Bool
vector_members_known libcpp_with_asan = false
vector_members_known unknown_library = false
vector_members_known library = true

-- `resize` of a `std::vector` whose elements have `width` bytes each: it is taken for one of bytes,
-- except where the library's own `resize` is called.
unfoldable pub resize_vector : Library → Allocator → ℕ → ℕ → Buffer → Buffer
resize_vector library memory width sz raw_vec =
    if vector_members_known library
    then vector_set_length_hacker sz (memory.reserve sz raw_vec)
    else (let bytes = sz * width in
        record (put_zeros (bytes - raw_vec.size) raw_vec.size (memory.reserve bytes raw_vec)) {
          size = bytes;
        })

-- The number of elements.
unfoldable pub vector_size : ℕ → Buffer → ℕ
vector_size width vec = vec.size / width

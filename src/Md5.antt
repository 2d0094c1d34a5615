-- ===== src/Md5.antt =====
-- include/rest_rpc/md5.hpp, struct MD5CE: the hash that turns a function's or a topic's name into
-- its 32-bit key. A `const char *` with its length is the list of its bytes and a number; words
-- are natural numbers with the wrap of `uint32_t` written out.
pub mod Padding
pub mod Words
pub mod Mixing
pub mod Rotation
pub mod Steps
pub mod Reference
pub mod Examples
use rest_rpc.Base.{
  ℕ, zero, suc, ◌+◌, ◌-◌, ◌*◌, ◌/◌, ◌%◌, ◌^◌, bit_and, bit_or, bit_xor, List, [], ◌∷◌, ltb, leb,
  ◌==◌, if◌then◌else◌, get_or,
}
use rest_rpc.Base.Words.{u8, u32, shl32, shr, not32, sub32}

-- `IntermediateData`: four `uint32_t`.
pub record IntermediateData : Type 0 where
  pub a : ℕ
  pub b : ℕ
  pub c : ℕ
  pub d : ℕ

-- `RoundData`: sixteen `uint32_t`.
abbrev pub RoundData : Type 0
RoundData = List ℕ

unfoldable pub k_constants : List ℕ
k_constants =
    0xd76aa478 ∷ 0xe8c7b756 ∷ 0x242070db ∷ 0xc1bdceee ∷ 0xf57c0faf ∷ 0x4787c62a ∷ 0xa8304613
    ∷ 0xfd469501 ∷ 0x698098d8 ∷ 0x8b44f7af ∷ 0xffff5bb1 ∷ 0x895cd7be ∷ 0x6b901122 ∷ 0xfd987193
    ∷ 0xa679438e ∷ 0x49b40821 ∷ 0xf61e2562 ∷ 0xc040b340 ∷ 0x265e5a51 ∷ 0xe9b6c7aa ∷ 0xd62f105d
    ∷ 0x02441453 ∷ 0xd8a1e681 ∷ 0xe7d3fbc8 ∷ 0x21e1cde6 ∷ 0xc33707d6 ∷ 0xf4d50d87 ∷ 0x455a14ed
    ∷ 0xa9e3e905 ∷ 0xfcefa3f8 ∷ 0x676f02d9 ∷ 0x8d2a4c8a ∷ 0xfffa3942 ∷ 0x8771f681 ∷ 0x6d9d6122
    ∷ 0xfde5380c ∷ 0xa4beea44 ∷ 0x4bdecfa9 ∷ 0xf6bb4b60 ∷ 0xbebfbc70 ∷ 0x289b7ec6 ∷ 0xeaa127fa
    ∷ 0xd4ef3085 ∷ 0x04881d05 ∷ 0xd9d4d039 ∷ 0xe6db99e5 ∷ 0x1fa27cf8 ∷ 0xc4ac5665 ∷ 0xf4292244
    ∷ 0x432aff97 ∷ 0xab9423a7 ∷ 0xfc93a039 ∷ 0x655b59c3 ∷ 0x8f0ccc92 ∷ 0xffeff47d ∷ 0x85845dd1
    ∷ 0x6fa87e4f ∷ 0xfe2ce6e0 ∷ 0xa3014314 ∷ 0x4e0811a1 ∷ 0xf7537e82 ∷ 0xbd3af235 ∷ 0x2ad7d2bb
    ∷ 0xeb86d391 ∷ []

unfoldable pub k_shifts : List ℕ
k_shifts = 7 ∷ 12 ∷ 17 ∷ 22 ∷ 5 ∷ 9 ∷ 14 ∷ 20 ∷ 4 ∷ 11 ∷ 16 ∷ 23 ∷ 6 ∷ 10 ∷ 15 ∷ 21 ∷ []

abbrev pub k_initial_intermediate_data : IntermediateData
k_initial_intermediate_data = record {
  a = 0x67452301;
  b = 0xefcdab89;
  c = 0x98badcfe;
  d = 0x10325476;
}

-- The sums are those of `uint32_t`.
unfoldable pub get_padded_message_length : ℕ → ℕ
get_padded_message_length n = u32 (u32 (u32 (u32 (n + 1) + 8) + 63) / 64 * 64)

-- `value` is a `uint64_t` and `i` a `uint32_t` below 8.
unfoldable pub extract_byte : ℕ → ℕ → ℕ
extract_byte value i = u8 (bit_and (shr value (u32 (i * 8))) 0xff)

-- The product `n * 8` and the differences are those of `uint32_t`.
unfoldable pub get_padded_message_byte : List ℕ → ℕ → ℕ → ℕ → ℕ
get_padded_message_byte message n m i =
    if ltb i n
    then u8 (get_or message i 0)
    else if i == n
    then 0x80
    else if leb (sub32 m 8) i
    then extract_byte (u32 (n * 8)) (sub32 i (sub32 m 8))
    else 0

unfoldable pub get_padded_message_word : List ℕ → ℕ → ℕ → ℕ → ℕ
get_padded_message_word message n m i =
    bit_or
      (bit_or
        (bit_or (u32 (get_padded_message_byte message n m i))
          (shl32 (get_padded_message_byte message n m (u32 (i + 1))) 8))
        (shl32 (get_padded_message_byte message n m (u32 (i + 2))) 16))
      (shl32 (get_padded_message_byte message n m (u32 (i + 3))) 24)

unfoldable pub get_round_data : List ℕ → ℕ → ℕ → ℕ → RoundData
get_round_data message n m i =
    word 0
    ∷ word 4
    ∷ word 8
    ∷ word 12
    ∷ word 16
    ∷ word 20
    ∷ word 24
    ∷ word 28
    ∷ word 32
    ∷ word 36
    ∷ word 40
    ∷ word 44
    ∷ word 48
    ∷ word 52
    ∷ word 56
    ∷ word 60
    ∷ []
  where
    word : ℕ → ℕ
    word k = get_padded_message_word message n m (u32 (i + k))

unfoldable pub calc_f : ℕ → ℕ → ℕ → ℕ → ℕ
calc_f i b c d =
    if ltb i 16
    then bit_xor d (bit_and b (bit_xor c d))
    else if ltb i 32
    then bit_xor c (bit_and d (bit_xor b c))
    else if ltb i 48
    then bit_xor (bit_xor b c) d
    else bit_xor c (bit_or b (not32 d))

unfoldable pub calc_g : ℕ → ℕ
calc_g i =
    if ltb i 16
    then i
    else if ltb i 32
    then u32 (u32 (5 * i) + 1) % 16
    else if ltb i 48
    then u32 (u32 (3 * i) + 5) % 16
    else u32 (7 * i) % 16

unfoldable pub get_shift : ℕ → ℕ
unfolding k_shifts
get_shift i = get_or k_shifts (i / 16 * 4 + i % 4) 0

unfoldable pub left_rotate : ℕ → ℕ → ℕ
left_rotate value bits = bit_or (shl32 value bits) (shr value (sub32 32 bits))

unfoldable pub apply_step : ℕ → RoundData → IntermediateData → IntermediateData
apply_step i words s =
    let g = calc_g i in
    let f =
      u32 (u32 (u32 (calc_f i s.b s.c s.d + s.a) + get_or k_constants i 0) + get_or words g 0) in
    record { a = s.d; b = u32 (s.b + left_rotate f (get_shift i)); c = s.b; d = s.c }

unfoldable pub add : IntermediateData → IntermediateData → IntermediateData
add s t = record {
  a = u32 (s.a + t.a);
  b = u32 (s.b + t.b);
  c = u32 (s.c + t.c);
  d = u32 (s.d + t.d);
}

-- The inner loop of `ProcessMessage` from round `i` on, with `left` rounds to go.
unfoldable pub apply_steps : ℕ → ℕ → RoundData → IntermediateData → IntermediateData
apply_steps zero i words s = s
apply_steps (suc left) i words s = apply_steps left (i + 1) words (apply_step i words s)

-- The outer loop of `ProcessMessage` at `offset`. A pass of it consumes 64 of the `m` bytes, so
-- that `m / 64` passes are enough; the fuel is one more, for the last test.
unfoldable pub process_blocks : ℕ → List ℕ → ℕ → ℕ → ℕ → IntermediateData → IntermediateData
process_blocks zero message n m offset s = s
process_blocks (suc fuel) message n m offset s =
    let mixed = apply_steps 64 0 (get_round_data message n m offset) s in
    let rest = process_blocks fuel message n m (u32 (offset + 64)) (add s mixed) in
    if ltb offset m then rest else s

unfoldable pub process_message : List ℕ → ℕ → IntermediateData
process_message message n =
    let m = get_padded_message_length n in
    process_blocks (m / 64 + 1) message n m 0 k_initial_intermediate_data

unfoldable pub swap_endian : ℕ → ℕ
swap_endian a =
    bit_or
      (bit_or (bit_or (shl32 (bit_and a 0xff) 24) (shl32 (bit_and (shr a 8) 0xff) 16))
        (shl32 (bit_and (shr a 16) 0xff) 8))
      (bit_and (shr a 24) 0xff)

unfoldable pub hash32 : List ℕ → ℕ → ℕ
hash32 message n = swap_endian (process_message message n).a

-- `MD5Hash32`.
unfoldable pub md5_hash32 : List ℕ → ℕ → ℕ
md5_hash32 message n = hash32 message n

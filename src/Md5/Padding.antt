-- ===== src/Md5/Padding.antt =====
-- The padded message of include/rest_rpc/md5.hpp, `GetPaddedMessageLength` to `GetRoundData`,
-- against the padding of RFC 1321, sections 3.1 and 3.2.
use rest_rpc.Base.{
  ℕ, zero, suc, ◌+◌, ◌-◌, ◌*◌, ◌/◌, ◌%◌, ◌^◌, ◌≤◌, ◌<◌, ◌≡◌, sym, ◌∙◌, ap, arith, List, ◌∷◌, ◌++◌,
  get_or, length, length-append, length-replicate, replicate, All, All-get_or, get_or-append_left,
  get_or-append_right, get_or-replicate, le→leb, le→ltb_false, ne→==_false,
}
use native.Mathlib.Nat.{mod-eq_of_lt}
use native.Mathlib.Decide.{dec_lt}
use rest_rpc.Base.Bits.{bit_and_mask}
use rest_rpc.Base.Bytes.{le_bytes}
use rest_rpc.Base.Words.{u8, u32, sub32}
use rest_rpc.Md5.{get_padded_message_length, extract_byte, get_padded_message_byte}

-- A one bit, zeros up to 56 modulo 64 bytes, and the length in bits as a 64-bit word, lowest byte
-- first.
abbrev pub zeros : ℕ → ℕ
zeros n = (119 - n % 64) % 64

abbrev pub rfc_tail : ℕ → List ℕ
rfc_tail n = 0x80 ∷ (replicate (zeros n) 0 ++ le_bytes 8 (8 * n))

abbrev pub rfc_pad : List ℕ → List ℕ
rfc_pad message = message ++ rfc_tail (length message)

length-rfc_tail : (n : ℕ) → length (rfc_tail n) ≡ zeros n + 9
length-rfc_tail n = omega (
  arith,
  length-append (replicate (zeros n) 0) (le_bytes 8 (8 * n)),
  length-replicate {A = ℕ} (zeros n) 0,
)

-- The computed length is that of the padded message: the least multiple of 64 that has room for
-- the marker and the length field.
pub get_padded_message_length_lem :
    (n : ℕ)
    → n + 72 < 2 ^ 32
    → (get_padded_message_length n ≡ n + zeros n + 9)
      × (get_padded_message_length n % 64 ≡ 0)
      × (n + 9 ≤ get_padded_message_length n)
      × (get_padded_message_length n < n + 73)
unfolding get_padded_message_length
get_padded_message_length_lem n h = (omega arith, omega arith, omega arith, omega arith)

pub length-rfc_pad :
    (message : List ℕ)
    → length message + 72 < 2 ^ 32
    → get_padded_message_length (length message) ≡ length (rfc_pad message)
length-rfc_pad message h = omega (
  arith,
  (get_padded_message_length_lem (length message) h).0,
  length-append message (rfc_tail (length message)),
  length-rfc_tail (length message),
)

pub extract_byte-le_bytes : (v i : ℕ) → i < 8 → extract_byte v i ≡ get_or (le_bytes 8 v) i 0
unfolding extract_byte
extract_byte-le_bytes v zero h = rw (bit_and_mask 8 (v / 2 ^ 0)) (omega arith)
extract_byte-le_bytes v (suc zero) h = rw (bit_and_mask 8 (v / 2 ^ 8)) (omega arith)
extract_byte-le_bytes v (suc (suc zero)) h = rw (bit_and_mask 8 (v / 2 ^ 16)) (omega arith)
extract_byte-le_bytes v (suc (suc (suc zero))) h = rw (bit_and_mask 8 (v / 2 ^ 24)) (omega arith)
extract_byte-le_bytes v (suc (suc (suc (suc zero)))) h =
    rw (bit_and_mask 8 (v / 2 ^ 32)) (omega arith)
extract_byte-le_bytes v (suc (suc (suc (suc (suc zero))))) h =
    rw (bit_and_mask 8 (v / 2 ^ 40)) (omega arith)
extract_byte-le_bytes v (suc (suc (suc (suc (suc (suc zero)))))) h =
    rw (bit_and_mask 8 (v / 2 ^ 48)) (omega arith)
extract_byte-le_bytes v (suc (suc (suc (suc (suc (suc (suc zero))))))) h =
    rw (bit_and_mask 8 (v / 2 ^ 56)) (omega arith)
extract_byte-le_bytes v (suc (suc (suc (suc (suc (suc (suc (suc i)))))))) h = absurd (omega arith)

-- The four ranges of `GetPaddedMessageByte`, at any length `m` that leaves room for the field.
module _ (message : List ℕ) (n m i : ℕ) (room : n + 9 ≤ m) (word : m < 2 ^ 32)
    (inside : i < m) where
  byte_in_message : i < n → get_padded_message_byte message n m i ≡ u8 (get_or message i 0)
  unfolding get_padded_message_byte
  byte_in_message h = ground arith

  byte_at_marker : i ≡ n → get_padded_message_byte message n m i ≡ 0x80
  unfolding get_padded_message_byte
  byte_at_marker h = ground arith

  byte_in_zeros : n < i → i + 8 < m → get_padded_message_byte message n m i ≡ 0
  unfolding get_padded_message_byte
  byte_in_zeros h k = ground arith

  pub byte_in_length :
      (j : ℕ) → i + 8 ≡ m + j → get_padded_message_byte message n m i ≡ extract_byte (u32 (n * 8)) j
  unfolding get_padded_message_byte
  byte_in_length j e =
      let first : sub32 m 8 ≡ m - 8 = omega arith in
      let place : sub32 i (m - 8) ≡ j = omega arith in
      rw (
        le→ltb_false n i (omega arith),
        ne→==_false i n (omega arith),
        first,
        le→leb (m - 8) i (omega arith),
        place,
      )

module _ (message : List ℕ) (bytes : All (λ b. b < 256) message)
    (fits : length message < 2 ^ 29) where
  abbrev n : ℕ
  n = length message

  abbrev m : ℕ
  m = get_padded_message_length (length message)

  padded_length : (m ≡ n + zeros n + 9) × (n + 9 ≤ m)
  padded_length = let lem = get_padded_message_length_lem n (omega arith) in (lem.0, lem.2)

  tail_byte : (i j : ℕ) → i ≡ n + j → get_or (rfc_pad message) i 0 ≡ get_or (rfc_tail n) j 0
  tail_byte i j e = get_or-append_right message (rfc_tail n) i j 0 e

  zero_byte : (j : ℕ) → j < zeros n → get_or (rfc_tail n) (suc j) 0 ≡ 0
  zero_byte j h =
      get_or-append_left (replicate (zeros n) 0) (le_bytes 8 (8 * n)) j 0
        (rw (length-replicate {A = ℕ} (zeros n) 0) h)
      ∙ get_or-replicate (zeros n) j 0 0 h

  length_byte :
      (j : ℕ) → get_or (rfc_tail n) (suc (zeros n + j)) 0 ≡ get_or (le_bytes 8 (8 * n)) j 0
  length_byte j =
      get_or-append_right (replicate (zeros n) 0) (le_bytes 8 (8 * n)) (zeros n + j) j 0
        (omega (arith, length-replicate {A = ℕ} (zeros n) 0))

  padded_size : length (rfc_pad message) ≡ m
  padded_size = sym (length-rfc_pad message (omega arith))

  room : n + 9 ≤ m
  room = padded_length.1

  word : m < 2 ^ 32
  word = omega (arith, padded_length)

  message_case :
      (i : ℕ) → i < n → get_padded_message_byte message n m i ≡ get_or (rfc_pad message) i 0
  message_case i h =
      byte_in_message message n m i room word (omega (arith, room)) h
      ∙ mod-eq_of_lt (All-get_or (λ b. b < 256) message bytes i 0 h)
      ∙ sym (get_or-append_left message (rfc_tail n) i 0 h)

  tail_case :
      (i j : ℕ)
      → i < m
      → i ≡ n + j
      → get_padded_message_byte message n m i ≡ get_or (rfc_pad message) i 0
  tail_case i zero h e =
      byte_at_marker message n m i room word h (omega arith) ∙ sym (tail_byte i 0 e)
  tail_case i (suc j) h e = elim (dec_lt j (zeros n)) [
    | yes p ↦
        byte_in_zeros message n m i room word h (omega arith) (omega (arith, padded_length))
        ∙ sym (tail_byte i (suc j) e ∙ zero_byte j p)
    | no p ↦
        let k : ℕ = j - zeros n in
        let at : j ≡ zeros n + k = omega arith in
        let last : k < 8 = omega (arith, padded_length) in
        byte_in_length message n m i room word h k (omega (arith, padded_length))
        ∙ ap (λ v. extract_byte v k) {x = u32 (n * 8)} {y = 8 * n} (omega arith)
        ∙ extract_byte-le_bytes (8 * n) k last
        ∙ sym (tail_byte i (suc j) e ∙ ap (λ l. get_or (rfc_tail n) (suc l) 0) at ∙ length_byte k)
  ]

  -- For a message of bytes, shorter than 2 ^ 29, the computed length is that of the RFC's padded
  -- message, and every byte that the code computes is the byte of the padded message there.
  pub get_padded_message_byte-rfc_pad :
      (i : ℕ)
      → i < length (rfc_pad message)
      → (get_padded_message_length (length message) ≡ length (rfc_pad message))
        × (get_padded_message_byte message
              (length message)
              (get_padded_message_length (length message))
              i
            ≡ get_or (rfc_pad message) i 0)
  get_padded_message_byte-rfc_pad i h = (
    sym padded_size,
    elim (dec_lt i n) [
      | yes p ↦ message_case i p
      | no p ↦ tail_case i (i - n) (rw padded_size at h) (omega arith)
    ],
  )

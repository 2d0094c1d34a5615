-- ===== src/Md5/Words.antt =====
-- The words that include/rest_rpc/md5.hpp reads from the padded message: `GetPaddedMessageWord`.
use rest_rpc.Base.{
  ℕ, ◌+◌, ◌-◌, ◌*◌, ◌/◌, ◌%◌, ◌^◌, ◌≤◌, ◌<◌, ◌≡◌, ◌∙◌, arith, List, get_or, length, All,
}
use rest_rpc.Base.Bytes.{le_bytes, or_bytes_low}
use rest_rpc.Base.Words.{u32, sub32}
use rest_rpc.Md5.{
  get_padded_message_length, extract_byte, get_padded_message_byte, get_padded_message_word,
}
use rest_rpc.Md5.Padding.{
  get_padded_message_length_lem, rfc_pad, get_padded_message_byte-rfc_pad, byte_in_length,
  extract_byte-le_bytes,
}

-- Four bytes from `i` on, the lowest first.
abbrev pub rfc_word : List ℕ → ℕ → ℕ
rfc_word bytes i =
    get_or bytes i 0
    + 256 * (get_or bytes (i + 1) 0 + 256 * (get_or bytes (i + 2) 0 + 256 * get_or bytes (i + 3) 0))

extract_byte-lt : (v i : ℕ) → extract_byte v i < 256
unfolding extract_byte
extract_byte-lt v i = omega arith

get_padded_message_byte-lt :
    (message : List ℕ) (n m i : ℕ) → get_padded_message_byte message n m i < 256
unfolding get_padded_message_byte
get_padded_message_byte-lt message n m i =
    ground (arith, extract_byte-lt (u32 (n * 8)) (sub32 i (sub32 m 8)))

get_padded_message_word-eq :
    (message : List ℕ) (n m i : ℕ)
    → i + 3 < 2 ^ 32
    → get_padded_message_word message n m i
      ≡ get_padded_message_byte message n m i
        + 256
          * (get_padded_message_byte message n m (i + 1)
              + 256
                * (get_padded_message_byte message n m (i + 2)
                    + 256 * get_padded_message_byte message n m (i + 3)))
unfolding get_padded_message_word
get_padded_message_word-eq message n m i h =
    let e1 : u32 (i + 1) ≡ i + 1 = omega arith in
    let e2 : u32 (i + 2) ≡ i + 2 = omega arith in
    let e3 : u32 (i + 3) ≡ i + 3 = omega arith in
    rw (e1, e2, e3)
      (or_bytes_low _ _ _ _ (get_padded_message_byte-lt message n m i)
        (get_padded_message_byte-lt message n m (i + 1))
        (get_padded_message_byte-lt message n m (i + 2))
        (get_padded_message_byte-lt message n m (i + 3)))

-- For a message of bytes, shorter than 2 ^ 29, each word that the code reads within the padded
-- message is that of the RFC's four bytes there, the lowest first.
pub get_padded_message_word-rfc_word :
    (message : List ℕ)
    → All (λ b. b < 256) message
    → length message < 2 ^ 29
    → (i : ℕ) → i + 3 < length (rfc_pad message)
    → get_padded_message_word message
        (length message)
        (get_padded_message_length (length message))
        i
      ≡ rfc_word (rfc_pad message) i
get_padded_message_word-rfc_word message bytes fits i h =
    let byte = get_padded_message_byte-rfc_pad message bytes fits in
    let whole = (byte i (omega arith)).0 in
    let size = get_padded_message_length_lem (length message) (omega arith) in
    rw (
      get_padded_message_word-eq message (length message)
          (get_padded_message_length (length message)) i (omega (arith, size, whole)),
      (byte i (omega arith)).1,
      (byte (i + 1) (omega arith)).1,
      (byte (i + 2) (omega arith)).1,
      (byte (i + 3) (omega arith)).1,
    )

-- The length field at any length `n` with `n + 72 < 2 ^ 32`: its lower word is the length in bits
-- modulo 2 ^ 32, and its upper word is 0.
pub length_field :
    (message : List ℕ) (n : ℕ)
    → n + 72 < 2 ^ 32
    → let m = get_padded_message_length n in
      (get_padded_message_word message n m (m - 8) ≡ 8 * n % 2 ^ 32)
      × (get_padded_message_word message n m (m - 4) ≡ 0)
length_field message n h = (low, high)
  where
    m : ℕ
    m = get_padded_message_length n

    size : (n + 9 ≤ m) × (m < 2 ^ 32)
    size = let lem = get_padded_message_length_lem n h in (lem.2, omega (arith, lem))

    byte :
        (i j : ℕ)
        → i + 8 ≡ m + j
        → j < 8
        → get_padded_message_byte message n m i ≡ get_or (le_bytes 8 (u32 (n * 8))) j 0
    byte i j e lt =
        byte_in_length message n m i size.0 size.1 (omega arith) j e
        ∙ extract_byte-le_bytes (u32 (n * 8)) j lt

    low : get_padded_message_word message n m (m - 8) ≡ 8 * n % 2 ^ 32
    low = omega (
      arith,
      size,
      get_padded_message_word-eq message n m (m - 8) (omega (arith, size)),
      byte (m - 8) 0 (omega (arith, size)) (omega arith),
      byte (m - 8 + 1) 1 (omega (arith, size)) (omega arith),
      byte (m - 8 + 2) 2 (omega (arith, size)) (omega arith),
      byte (m - 8 + 3) 3 (omega (arith, size)) (omega arith),
    )

    high : get_padded_message_word message n m (m - 4) ≡ 0
    high = omega (
      arith,
      size,
      get_padded_message_word-eq message n m (m - 4) (omega (arith, size)),
      byte (m - 4) 4 (omega (arith, size)) (omega arith),
      byte (m - 4 + 1) 5 (omega (arith, size)) (omega arith),
      byte (m - 4 + 2) 6 (omega (arith, size)) (omega arith),
      byte (m - 4 + 3) 7 (omega (arith, size)) (omega arith),
    )

-- From 2 ^ 29 bytes on, the upper word of the length field is less than the upper word of the
-- length in bits, which it is to hold.
pub length_field_short :
    (message : List ℕ) (n : ℕ)
    → n + 72 < 2 ^ 32
    → 2 ^ 29 ≤ n
    → get_padded_message_word message n
        (get_padded_message_length n)
        (get_padded_message_length n - 4)
      < 8 * n / 2 ^ 32
length_field_short message n h p = rw (length_field message n h).1 (omega arith)

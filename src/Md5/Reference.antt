-- ===== src/Md5/Reference.antt =====
-- `ProcessMessage` and `Hash32` of include/rest_rpc/md5.hpp against the algorithm of RFC 1321 on
-- the padded message.
use rest_rpc.Base.{
  ℕ, zero, suc, ◌+◌, ◌*◌, ◌/◌, ◌%◌, ◌^◌, ◌≤◌, ◌<◌, ◌≡◌, refl, ◌∙◌, ap, arith, List, [], ◌∷◌, length,
  All, lt→ltb, le→ltb_false,
}
use rest_rpc.Base.Words.{u32}
use rest_rpc.Base.Bytes.{le_bytes, of_be_bytes}
use rest_rpc.Md5.{
  IntermediateData, RoundData, k_initial_intermediate_data, get_padded_message_length,
  get_padded_message_word, get_round_data, apply_step, add, apply_steps, process_blocks,
  process_message, hash32, md5_hash32,
}
use rest_rpc.Md5.Padding.{rfc_pad, length-rfc_pad, get_padded_message_length_lem}
use rest_rpc.Md5.Words.{rfc_word, get_padded_message_word-rfc_word}
use rest_rpc.Md5.Steps.{IsWords, rfc_step, apply_step-rfc_step, add-IsWords}
use rest_rpc.Md5.Rotation.{swap_endian-eq}

-- "For each 16-word block": the words of the block at `offset`.
abbrev pub rfc_block : List ℕ → ℕ → RoundData
rfc_block bytes o =
    word 0
    ∷ word 4
    ∷ word 8
    ∷ word 12
    ∷ word 16
    ∷ word 20
    ∷ word 24
    ∷ word 28
    ∷ word 32
    ∷ word 36
    ∷ word 40
    ∷ word 44
    ∷ word 48
    ∷ word 52
    ∷ word 56
    ∷ word 60
    ∷ []
  where
    word : ℕ → ℕ
    word k = rfc_word bytes (o + k)

-- The steps from `i` on.
pub rfc_steps : ℕ → ℕ → RoundData → IntermediateData → IntermediateData
rfc_steps zero i x s = s
rfc_steps (suc left) i x s = rfc_steps left (i + 1) x (rfc_step i x s)

abbrev rfc_sum : IntermediateData → IntermediateData → IntermediateData
rfc_sum s t = record {
  a = (s.a + t.a) % 2 ^ 32;
  b = (s.b + t.b) % 2 ^ 32;
  c = (s.c + t.c) % 2 ^ 32;
  d = (s.d + t.d) % 2 ^ 32;
}

-- The registers are saved, mixed with the block, and the saved values are added.
pub rfc_blocks : ℕ → List ℕ → ℕ → IntermediateData → IntermediateData
rfc_blocks zero bytes o s = s
rfc_blocks (suc k) bytes o s =
    rfc_blocks k bytes (o + 64) (rfc_sum s (rfc_steps 64 0 (rfc_block bytes o) s))

-- The state after the last block of the padded message.
pub rfc_md5 : List ℕ → IntermediateData
rfc_md5 message =
    rfc_blocks (length (rfc_pad message) / 64) (rfc_pad message) 0 k_initial_intermediate_data

apply_steps-rfc_steps :
    (left i : ℕ) (x : RoundData) (s : IntermediateData)
    → i + left ≤ 64
    → IsWords s
    → apply_steps left i x s ≡ rfc_steps left i x s
unfolding apply_steps rfc_steps
apply_steps-rfc_steps zero i x s h w = refl
apply_steps-rfc_steps (suc left) i x s h w =
    let step = apply_step-rfc_step i x s (omega arith) w in
    apply_steps-rfc_steps left (i + 1) x (apply_step i x s) (omega arith) step.1
    ∙ ap (rfc_steps left (i + 1) x) step.0

module _ (message : List ℕ) (bytes : All (λ b. b < 256) message)
    (fits : length message < 2 ^ 29) where
  abbrev n : ℕ
  n = length message

  abbrev m : ℕ
  m = get_padded_message_length n

  size : (m ≡ length (rfc_pad message)) × (m % 64 ≡ 0) × (m < 2 ^ 30)
  size =
      let lem = get_padded_message_length_lem n (omega arith) in
      (length-rfc_pad message (omega arith), lem.1, omega (arith, lem.3))

  word-eq :
      (o k : ℕ)
      → o + 64 ≤ m
      → k < 61
      → get_padded_message_word message n m (u32 (o + k)) ≡ rfc_word (rfc_pad message) (o + k)
  word-eq o k h lt =
      ap (get_padded_message_word message n m) {x = u32 (o + k)} {y = o + k} (omega (arith, size))
      ∙ get_padded_message_word-rfc_word message bytes fits (o + k) (omega (arith, size))

  get_round_data-rfc_block :
      (o : ℕ) → o + 64 ≤ m → get_round_data message n m o ≡ rfc_block (rfc_pad message) o
  unfolding get_round_data
  get_round_data-rfc_block o h = rw (
    word-eq o 0 h (omega arith),
    word-eq o 4 h (omega arith),
    word-eq o 8 h (omega arith),
    word-eq o 12 h (omega arith),
    word-eq o 16 h (omega arith),
    word-eq o 20 h (omega arith),
    word-eq o 24 h (omega arith),
    word-eq o 28 h (omega arith),
    word-eq o 32 h (omega arith),
    word-eq o 36 h (omega arith),
    word-eq o 40 h (omega arith),
    word-eq o 44 h (omega arith),
    word-eq o 48 h (omega arith),
    word-eq o 52 h (omega arith),
    word-eq o 56 h (omega arith),
    word-eq o 60 h (omega arith),
  )

  -- With fuel for one more pass than there are blocks left, the loop mixes in those blocks.
  process_blocks-rfc_blocks :
      (k fuel o : ℕ) (s : IntermediateData)
      → o + 64 * k ≡ m
      → k < fuel
      → IsWords s
      → process_blocks fuel message n m o s ≡ rfc_blocks k (rfc_pad message) o s
  unfolding process_blocks rfc_blocks add
  process_blocks-rfc_blocks k zero o s e h w = absurd (omega arith)
  process_blocks-rfc_blocks zero (suc fuel) o s e h w = rw (le→ltb_false m o (omega arith))
  process_blocks-rfc_blocks (suc k) (suc fuel) o s e h w =
      let next = apply_steps 64 0 (get_round_data message n m o) s in
      let rest =
        process_blocks-rfc_blocks k fuel (o + 64) (add s next) (omega arith) (omega arith)
          (add-IsWords s next) in
      let same : next ≡ rfc_steps 64 0 (rfc_block (rfc_pad message) o) s =
        apply_steps-rfc_steps 64 0 (get_round_data message n m o) s (omega arith) w
        ∙ ap (λ x. rfc_steps 64 0 x s) (get_round_data-rfc_block o (omega arith)) in
      let offset : u32 (o + 64) ≡ o + 64 = omega (arith, size) in
      rw (lt→ltb o m (omega arith), offset)
        (rest ∙ ap (λ t. rfc_blocks k (rfc_pad message) (o + 64) (rfc_sum s t)) same)

  k_initial-IsWords : IsWords k_initial_intermediate_data
  k_initial-IsWords = omega arith

  process_message-eq : process_message message n ≡ rfc_md5 message
  unfolding process_message rfc_md5
  process_message-eq =
      process_blocks-rfc_blocks (m / 64) (m / 64 + 1) 0 k_initial_intermediate_data
        (omega (arith, size)) (omega arith) k_initial-IsWords
      ∙ ap (λ l. rfc_blocks (l / 64) (rfc_pad message) 0 k_initial_intermediate_data) size.0

rfc_blocks-IsWords :
    (k : ℕ) (bytes : List ℕ) (o : ℕ) (s : IntermediateData)
    → IsWords s
    → IsWords (rfc_blocks k bytes o s)
unfolding rfc_blocks
rfc_blocks-IsWords zero bytes o s w = w
rfc_blocks-IsWords (suc k) bytes o s w =
    rfc_blocks-IsWords k bytes (o + 64) (rfc_sum s (rfc_steps 64 0 (rfc_block bytes o) s))
      (omega arith)

-- For every message of bytes shorter than 2 ^ 29, `ProcessMessage` ends in the state of RFC 1321's
-- algorithm on the padded message, with the fuel that the model gives its loop, and `MD5Hash32` is
-- the number that the first four bytes of the RFC's digest write, the highest first.
pub md5_hash32-rfc_md5 :
    (message : List ℕ)
    → All (λ b. b < 256) message
    → length message < 2 ^ 29
    → (process_message message (length message) ≡ rfc_md5 message)
      × (md5_hash32 message (length message) ≡ of_be_bytes 0 (le_bytes 4 (rfc_md5 message).a))
unfolding md5_hash32 hash32
md5_hash32-rfc_md5 message bytes fits =
    (same, rw same (swap_endian-eq (rfc_md5 message).a words.a_fits ∙ omega (arith, words.a_fits)))
  where
    same : process_message message (length message) ≡ rfc_md5 message
    same = process_message-eq message bytes fits

    words : IsWords (rfc_md5 message)
    words =
        unfold rfc_md5 in
        rfc_blocks-IsWords (length (rfc_pad message) / 64) (rfc_pad message) 0
          k_initial_intermediate_data (omega arith)

-- ===== src/Md5/Examples.antt =====
-- Test vectors of include/rest_rpc/md5.hpp, and its theorems on the text "abc".
use rest_rpc.Base.{ℕ, ◌*◌, ◌-◌, ◌/◌, ◌^◌, ◌<◌, ◌≡◌, refl, arith, List, [], ◌∷◌, All}
use rest_rpc.Base.Text.{codes}
use rest_rpc.Base.Bytes.{le_bytes, of_be_bytes}
use rest_rpc.Md5.{
  k_constants, k_shifts, get_padded_message_length, extract_byte, get_padded_message_byte,
  get_padded_message_word, get_round_data, calc_f, calc_g, get_shift, left_rotate, apply_step, add,
  apply_steps, process_blocks, process_message, swap_endian, hash32, md5_hash32,
}
use rest_rpc.Md5.Words.{length_field_short}
use rest_rpc.Md5.Reference.{rfc_md5, md5_hash32-rfc_md5}

-- RFC 1321's values for the empty text and for "abc".
pub md5_hash32_vectors : (md5_hash32 [] 0 ≡ 0xd41d8cd9) × (md5_hash32 (codes "abc") 3 ≡ 0x90015098)
unfolding k_constants k_shifts get_padded_message_length extract_byte get_padded_message_byte
    get_padded_message_word get_round_data calc_f calc_g get_shift left_rotate apply_step add
    apply_steps process_blocks process_message swap_endian hash32 md5_hash32
md5_hash32_vectors = (refl, refl)

-- The keys of the functions of examples/server.cpp.
pub md5_hash32_functions :
    (md5_hash32 (codes "echo") 4 ≡ 0xcbb11ed8)
    × (md5_hash32 (codes "echo_coro") 9 ≡ 0xbac3e659)
    × (md5_hash32 (codes "dummy::add") 10 ≡ 0xb5c999c1)
    × (md5_hash32 (codes "get_person") 10 ≡ 0x55b96248)
    × (md5_hash32 (codes "add") 3 ≡ 0x34ec78fc)
unfolding k_constants k_shifts get_padded_message_length extract_byte get_padded_message_byte
    get_padded_message_word get_round_data calc_f calc_g get_shift left_rotate apply_step add
    apply_steps process_blocks process_message swap_endian hash32 md5_hash32
md5_hash32_functions = (refl, refl, refl, refl, refl)

-- The key of the topic of examples/server.cpp.
pub md5_hash32_topic1 : md5_hash32 (codes "topic1") 6 ≡ 0x4dadd7ee
unfolding k_constants k_shifts get_padded_message_length extract_byte get_padded_message_byte
    get_padded_message_word get_round_data calc_f calc_g get_shift left_rotate apply_step add
    apply_steps process_blocks process_message swap_endian hash32 md5_hash32
md5_hash32_topic1 = refl

abbrev abc : List ℕ
abc = 97 ∷ 98 ∷ 99 ∷ []

abc-All : All (λ b. b < 256) abc
abc-All = (omega arith, (omega arith, (omega arith, tt)))

md5_hash32-rfc_md5_example :
    (process_message abc 3 ≡ rfc_md5 abc)
    × (md5_hash32 abc 3 ≡ of_be_bytes 0 (le_bytes 4 (rfc_md5 abc).a))
md5_hash32-rfc_md5_example = md5_hash32-rfc_md5 abc abc-All (omega arith)

length_field_short_example :
    get_padded_message_word []
      (2 ^ 29)
      (get_padded_message_length (2 ^ 29))
      (get_padded_message_length (2 ^ 29) - 4)
    < 8 * 2 ^ 29 / 2 ^ 32
length_field_short_example = length_field_short [] (2 ^ 29) (omega arith) (omega arith)

-- ===== src/Protocol/Order.antt =====
-- `htonll`, `ntohll`, `prepare_for_send` and `parse_recieved` of
-- include/rest_rpc/rest_rpc_protocol.hpp.
use rest_rpc.Base.{
  ℕ, ◌+◌, ◌*◌, ◌/◌, ◌%◌, ◌^◌, ◌<◌, bit_and, bit_or, ◌≡◌, sym, ◌∙◌, ap, ap₂, subst, arith, List,
  ◌++◌, ◌≢◌,
}
use rest_rpc.Base.Bits.{bit_or_fields, bit_and_mask}
use rest_rpc.Base.Bytes.{
  be_bytes, le_bytes-halves, be_bytes-halves, of_be_bytes, of_be_bytes-be_bytes,
}
use rest_rpc.Base.Words.{u32, shl64, shr}
use rest_rpc.Protocol.{
  Endian, little, big, Host, store, htonll, ntohll, RestRpcHeader, IsHeader, prepare_for_send,
  parse_recieved,
}

-- The words that go in come out in the opposite places.
swapped_halves :
    (swap : ℕ → ℕ) (value : ℕ)
    → value < 2 ^ 64
    → swap (value / 2 ^ 32) < 2 ^ 32
    → swap (value % 2 ^ 32) < 2 ^ 32
    → bit_or (shl64 (swap (u32 (bit_and value 0xFFFFFFFF))) 32) (swap (u32 (shr value 32)))
      ≡ swap (value % 2 ^ 32) * 2 ^ 32 + swap (value / 2 ^ 32)
swapped_halves swap value h hi lo = rw (
  bit_and_mask 32 value,
  mod_mod,
  top,
  fits,
  bit_or_fields 32 (swap (value % 2 ^ 32)) (swap (value / 2 ^ 32)) hi,
)
  where
    mod_mod : u32 (value % 2 ^ 32) ≡ value % 2 ^ 32
    mod_mod = omega arith

    top : u32 (shr value 32) ≡ value / 2 ^ 32
    top = omega arith

    fits : swap (value % 2 ^ 32) * 2 ^ 32 % 2 ^ 64 ≡ swap (value % 2 ^ 32) * 2 ^ 32
    fits = omega arith

module _ (host : Host) where
  open host use {endian, htonl, ntohl, htonl-lt, ntohl-htonl, htonl_network}

  pub htonll-eq :
      (v : ℕ)
      → v < 2 ^ 64
      → (htonll host v ≡ htonl (v % 2 ^ 32) * 2 ^ 32 + htonl (v / 2 ^ 32))
        × (htonl (v / 2 ^ 32) < 2 ^ 32)
        × (htonl (v % 2 ^ 32) < 2 ^ 32)
  unfolding htonll
  htonll-eq v h =
      let top = htonl-lt (v / 2 ^ 32) (omega arith) in
      let low = htonl-lt (v % 2 ^ 32) (omega arith) in (swapped_halves htonl v h top low, top, low)

  pub htonll-lt : (v : ℕ) → v < 2 ^ 64 → htonll host v < 2 ^ 64
  htonll-lt v h = omega (arith, htonll-eq v h)

  -- `ntohll` undoes `htonll` on every 64-bit number, whatever the host's order.
  pub ntohll-htonll : (v : ℕ) → v < 2 ^ 64 → ntohll host (htonll host v) ≡ v
  unfolding ntohll
  ntohll-htonll v h =
      let e = htonll-eq v h in
      let top = ntohl-htonl (v / 2 ^ 32) (omega arith) in
      let low = ntohl-htonl (v % 2 ^ 32) (omega arith) in
      let upper : htonll host v / 2 ^ 32 ≡ htonl (v % 2 ^ 32) = omega (arith, e) in
      let lower : htonll host v % 2 ^ 32 ≡ htonl (v / 2 ^ 32) = omega (arith, e) in
      swapped_halves ntohl (htonll host v) (htonll-lt v h) (rw (upper, low) (omega arith))
        (rw (lower, top) (omega arith))
      ∙ (rw (upper, lower, top, low) (omega arith))

  -- Preparing a header and parsing it on the same host gives the header back.
  pub parse_recieved-prepare_for_send :
      (h : RestRpcHeader) → IsHeader h → parse_recieved host (prepare_for_send host h) ≡ h
  unfolding prepare_for_send parse_recieved
  parse_recieved-prepare_for_send h w = ground (
    arith,
    ntohl-htonl h.function_id w.function_id_fits,
    ntohll-htonll h.seq_num w.seq_num_fits,
    ntohll-htonll h.body_len w.body_len_fits,
    ntohll-htonll h.attach_length w.attach_length_fits,
  )

-- What memory holds of a 64-bit number that `htonll` has converted: on a little-endian host its
-- eight bytes, the highest first; on a big-endian host those of its lower half and then those of
-- its upper half.
abbrev pub htonll_layout : Endian → ℕ → List ℕ
htonll_layout little v = be_bytes 8 v
htonll_layout big v = be_bytes 4 (v % 2 ^ 32) ++ be_bytes 4 (v / 2 ^ 32)

layout :
    (e : Endian) (v top low : ℕ)
    → v < 2 ^ 64
    → top < 2 ^ 32
    → low < 2 ^ 32
    → store e 4 top ≡ be_bytes 4 (v / 2 ^ 32)
    → store e 4 low ≡ be_bytes 4 (v % 2 ^ 32)
    → store e 8 (low * 2 ^ 32 + top) ≡ htonll_layout e v
layout little v top low h p q upper lower =
    le_bytes-halves low top p
    ∙ ap₂ ◌++◌ upper lower
    ∙ sym (be_bytes-halves (v / 2 ^ 32) (v % 2 ^ 32) (omega arith))
    ∙ ap (be_bytes 8) {x = v / 2 ^ 32 * 2 ^ 32 + v % 2 ^ 32} {y = v} (omega arith)
layout big v top low h p q upper lower = be_bytes-halves low top p ∙ ap₂ ◌++◌ lower upper

pub store-htonll :
    (host : Host) (v : ℕ)
    → v < 2 ^ 64
    → store host.endian 8 (htonll host v) ≡ htonll_layout host.endian v
store-htonll host v h =
    let e = htonll-eq host v h in
    rw e.0 (
      layout host.endian v (host.htonl (v / 2 ^ 32)) (host.htonl (v % 2 ^ 32)) h e.1 e.2
        (host.htonl_network (v / 2 ^ 32) (omega arith))
        (host.htonl_network (v % 2 ^ 32) (omega arith)))

equal_halves : (v : ℕ) → v < 2 ^ 64 → htonll_layout big v ≡ be_bytes 8 v → v / 2 ^ 32 ≡ v % 2 ^ 32
equal_halves v h e =
    let w : ℕ = v % 2 ^ 32 * 2 ^ 32 + v / 2 ^ 32 in
    let number : w ≡ v =
      sym (of_be_bytes-be_bytes 8 w (omega arith))
      ∙ ap (of_be_bytes 0) (be_bytes-halves (v % 2 ^ 32) (v / 2 ^ 32) (omega arith) ∙ e)
      ∙ of_be_bytes-be_bytes 8 v h in
    omega (arith, number)

-- On a big-endian host `htonll` does not give network order: if the halves of a 64-bit number
-- differ, memory does not hold its bytes with the highest first.
pub htonll_big_endian :
    (host : Host) (v : ℕ)
    → v < 2 ^ 64
    → host.endian ≡ big
    → v / 2 ^ 32 ≢ v % 2 ^ 32
    → store host.endian 8 (htonll host v) ≢ be_bytes 8 v
htonll_big_endian host v h e differ same =
    differ (equal_halves v h (subst (λ o. htonll_layout o v ≡ be_bytes 8 v) e laid_out))
  where
    laid_out : htonll_layout host.endian v ≡ be_bytes 8 v
    laid_out = sym (store-htonll host v h) ∙ same

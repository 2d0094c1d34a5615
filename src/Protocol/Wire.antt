-- ===== src/Protocol/Wire.antt =====
-- The header of include/rest_rpc/rest_rpc_protocol.hpp as the bytes that are sent and read.
use mathlib.Core.List.{append_assoc}
use rest_rpc.Base.{
  ℕ, ◌^◌, ◌<◌, ◌≡◌, ◌∙◌, ap, subst, arith, List, ◌∷◌, ◌++◌, some, length, length-append,
  le→ltb_false, take, drop, take-append, drop-append, ltb, false,
}
use rest_rpc.Base.Bytes.{
  be_bytes, length-le_bytes, length-be_bytes, of_le_bytes-le_bytes, of_be_bytes-be_bytes,
}
use rest_rpc.Protocol.{
  Endian, little, big, Host, store, load, RestRpcHeader, IsHeader, header_bytes, header_of_bytes,
  prepare_for_send, header_size,
}
use rest_rpc.Protocol.Order.{store-htonll, htonll_layout, htonll-lt}

length-store : (e : Endian) (k v : ℕ) → length (store e k v) ≡ k
length-store little k v = length-le_bytes k v
length-store big k v = length-be_bytes k v

load-store : (e : Endian) (k v : ℕ) → v < 256 ^ k → load e (store e k v) ≡ v
load-store little k v h = of_le_bytes-le_bytes k v h
load-store big k v h = of_be_bytes-be_bytes k v h

-- A field at the front of what is left, and what comes after it.
field :
    (e : Endian) (k v : ℕ) (rest : List ℕ)
    → v < 256 ^ k
    → (load e (take k (store e k v ++ rest)) ≡ v) × (drop k (store e k v ++ rest) ≡ rest)
field e k v rest h =
    let size = length-store e k v in
    (
      ap (load e) (
            subst (λ n. take n (store e k v ++ rest) ≡ store e k v) size
              (take-append (store e k v) rest))
          ∙ load-store e k v h,
      subst (λ n. drop n (store e k v ++ rest) ≡ rest) size (drop-append (store e k v) rest),
    )

module _ (e : Endian) (h : RestRpcHeader) where
  abbrev field_bytes : List ℕ
  field_bytes =
      store e 4 h.function_id
      ++ (store e 8 h.seq_num ++ (store e 8 h.body_len ++ store e 8 h.attach_length))

  length-field_bytes : length field_bytes ≡ 28
  length-field_bytes = omega (
    arith,
    length-append (store e 4 h.function_id)
        (store e 8 h.seq_num ++ (store e 8 h.body_len ++ store e 8 h.attach_length)),
    length-append (store e 8 h.seq_num) (store e 8 h.body_len ++ store e 8 h.attach_length),
    length-append (store e 8 h.body_len) (store e 8 h.attach_length),
    length-store e 4 h.function_id,
    length-store e 8 h.seq_num,
    length-store e 8 h.body_len,
    length-store e 8 h.attach_length,
  )

  pub length-header_bytes : length (header_bytes e h) ≡ header_size
  unfolding header_bytes
  length-header_bytes = omega (arith, length-field_bytes)

  regroup :
      (rest : List ℕ)
      → field_bytes ++ rest
        ≡ store e 4 h.function_id
          ++ (store e 8 h.seq_num ++ (store e 8 h.body_len ++ (store e 8 h.attach_length ++ rest)))
  regroup rest = simp append_assoc

  long_enough : (rest : List ℕ) → ltb (length (field_bytes ++ rest)) 28 ≡ false
  long_enough rest =
      le→ltb_false 28 (length (field_bytes ++ rest))
        (omega (arith, length-append field_bytes rest, length-field_bytes))

  -- The 32 bytes of a header make up that header again on a host of the same order, whatever
  -- follows them.
  pub header_of_bytes-header_bytes :
      (rest : List ℕ) → IsHeader h → header_of_bytes e (header_bytes e h ++ rest) ≡ some h
  unfolding header_of_bytes header_bytes
  header_of_bytes-header_bytes rest w =
      let attach = field e 8 h.attach_length rest w.attach_length_fits in
      let body = field e 8 h.body_len (store e 8 h.attach_length ++ rest) w.body_len_fits in
      let seq =
        field e 8 h.seq_num (store e 8 h.body_len ++ (store e 8 h.attach_length ++ rest))
          w.seq_num_fits in
      let id =
        field e 4 h.function_id
          (store e 8 h.seq_num ++ (store e 8 h.body_len ++ (store e 8 h.attach_length ++ rest)))
          w.function_id_fits in
      rw (long_enough rest, regroup rest, id.0, id.1, seq.0, seq.1, body.0, body.1, attach.0)

-- The bytes of a header that `prepare_for_send` has converted on a little-endian host: the four
-- numbers in network order, the highest byte first.
abbrev pub network_bytes : RestRpcHeader → List ℕ
network_bytes h =
    h.magic
    ∷ h.version
    ∷ h.serialize_type
    ∷ h.msg_type
    ∷ (be_bytes 4 h.function_id
        ++ (be_bytes 8 h.seq_num ++ (be_bytes 8 h.body_len ++ be_bytes 8 h.attach_length)))

-- On a little-endian host a prepared header is sent in network order.
pub header_bytes-prepare_for_send :
    (host : Host) (h : RestRpcHeader)
    → host.endian ≡ little
    → IsHeader h
    → header_bytes host.endian (prepare_for_send host h) ≡ network_bytes h
unfolding header_bytes prepare_for_send
header_bytes-prepare_for_send host h e w =
    let laid = λ (v : ℕ) (p : v < 2 ^ 64). store-htonll host v p ∙ ap (λ o. htonll_layout o v) e in
    rw (
      host.htonl_network h.function_id w.function_id_fits,
      laid h.seq_num w.seq_num_fits,
      laid h.body_len w.body_len_fits,
      laid h.attach_length w.attach_length_fits,
    )

pub prepare_for_send-IsHeader :
    (host : Host) (h : RestRpcHeader) → IsHeader h → IsHeader (prepare_for_send host h)
unfolding prepare_for_send
prepare_for_send-IsHeader host h w = record {
  magic_fits = w.magic_fits;
  version_fits = w.version_fits;
  serialize_type_fits = w.serialize_type_fits;
  msg_type_fits = w.msg_type_fits;
  function_id_fits = host.htonl-lt h.function_id w.function_id_fits;
  seq_num_fits = htonll-lt host h.seq_num w.seq_num_fits;
  body_len_fits = htonll-lt host h.body_len w.body_len_fits;
  attach_length_fits = htonll-lt host h.attach_length w.attach_length_fits;
}

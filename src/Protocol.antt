-- ===== src/Protocol.antt =====
-- include/rest_rpc/rest_rpc_protocol.hpp: the message header, its conversions between host and
-- network order, and the bytes that it occupies in memory and so on the wire.
pub mod Order
pub mod Wire
pub mod Hosts
mod Examples
use rest_rpc.Base.{
  ℕ, zero, suc, ◌+◌, ◌*◌, ◌/◌, ◌%◌, ◌^◌, ◌<◌, bit_and, bit_or, ◌≡◌, Option, none, some, List, [],
  ◌∷◌, ◌++◌, length, take, drop, ltb, if◌then◌else◌,
}
use rest_rpc.Base.Bytes.{le_bytes, be_bytes, of_le_bytes, of_be_bytes}
use rest_rpc.Base.Words.{u32, shl64, shr}

-- The order in which a host keeps the bytes of a number.
pub data Endian : Type 0 where
  little big : Endian

abbrev pub store : Endian → ℕ → ℕ → List ℕ
store little k v = le_bytes k v
store big k v = be_bytes k v

abbrev pub load : Endian → List ℕ → ℕ
load little bs = of_le_bytes bs
load big bs = of_be_bytes 0 bs

-- A host, with the `htonl` and `ntohl` of its system library: they take 32-bit words to 32-bit
-- words, `htonl` so that memory holds the highest byte first, and `ntohl` goes back.
pub record Host : Type 0 where
  pub endian : Endian
  pub htonl : ℕ → ℕ
  pub ntohl : ℕ → ℕ
  pub htonl-lt : (v : ℕ) → v < 2 ^ 32 → htonl v < 2 ^ 32
  pub ntohl-htonl : (v : ℕ) → v < 2 ^ 32 → ntohl (htonl v) ≡ v
  pub htonl_network : (v : ℕ) → v < 2 ^ 32 → store endian 4 (htonl v) ≡ be_bytes 4 v

unfoldable pub htonll : Host → ℕ → ℕ
htonll host value =
    bit_or (shl64 (host.htonl (u32 (bit_and value 0xFFFFFFFF))) 32)
      (host.htonl (u32 (shr value 32)))

unfoldable pub ntohll : Host → ℕ → ℕ
ntohll host value =
    bit_or (shl64 (host.ntohl (u32 (bit_and value 0xFFFFFFFF))) 32)
      (host.ntohl (u32 (shr value 32)))

abbrev pub rest_magic_num : ℕ
rest_magic_num = 39

pub record RestRpcHeader : Type 0 where
  pub magic : ℕ
  pub version : ℕ
  pub serialize_type : ℕ
  pub msg_type : ℕ
  pub function_id : ℕ
  pub seq_num : ℕ
  pub body_len : ℕ
  pub attach_length : ℕ

-- `rest_rpc_header header{}`.
abbrev pub empty_header : RestRpcHeader
empty_header = record {
  magic = rest_magic_num;
  version = 0;
  serialize_type = 0;
  msg_type = 0;
  function_id = 0;
  seq_num = 0;
  body_len = 0;
  attach_length = 0;
}

unfoldable pub prepare_for_send : Host → RestRpcHeader → RestRpcHeader
prepare_for_send host header = record header {
  function_id = host.htonl header.function_id;
  seq_num = htonll host header.seq_num;
  body_len = htonll host header.body_len;
  attach_length = htonll host header.attach_length;
}

unfoldable pub parse_recieved : Host → RestRpcHeader → RestRpcHeader
parse_recieved host header = record header {
  function_id = host.ntohl header.function_id;
  seq_num = ntohll host header.seq_num;
  body_len = ntohll host header.body_len;
  attach_length = ntohll host header.attach_length;
}

-- `sizeof(rest_rpc_header)`: the fields are aligned as they stand.
abbrev pub header_size : ℕ
header_size = 32

-- `asio::buffer(&header, sizeof(rest_rpc_header))`, sent: the bytes of the object.
unfoldable pub header_bytes : Endian → RestRpcHeader → List ℕ
header_bytes e h =
    h.magic
    ∷ h.version
    ∷ h.serialize_type
    ∷ h.msg_type
    ∷ (store e 4 h.function_id
        ++ (store e 8 h.seq_num ++ (store e 8 h.body_len ++ store e 8 h.attach_length)))

-- The same buffer, read into: the object that 32 bytes make up.
unfoldable pub header_of_bytes : Endian → List ℕ → Option RestRpcHeader
header_of_bytes e (magic ∷ version ∷ serialize_type ∷ msg_type ∷ rest) =
    if ltb (length rest) 28
    then none
    else some (record {
      magic = magic;
      version = version;
      serialize_type = serialize_type;
      msg_type = msg_type;
      function_id = load e (take 4 rest);
      seq_num = load e (take 8 (drop 4 rest));
      body_len = load e (take 8 (drop 8 (drop 4 rest)));
      attach_length = load e (take 8 (drop 8 (drop 8 (drop 4 rest))));
    })
header_of_bytes e _ = none

-- The ranges of the fields.
pub record IsHeader (h : RestRpcHeader) : Type 0 where
  pub magic_fits : h.magic < 2 ^ 8
  pub version_fits : h.version < 2 ^ 8
  pub serialize_type_fits : h.serialize_type < 2 ^ 8
  pub msg_type_fits : h.msg_type < 2 ^ 8
  pub function_id_fits : h.function_id < 2 ^ 32
  pub seq_num_fits : h.seq_num < 2 ^ 64
  pub body_len_fits : h.body_len < 2 ^ 64
  pub attach_length_fits : h.attach_length < 2 ^ 64

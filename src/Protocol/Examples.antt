-- ===== src/Protocol/Examples.antt =====
-- Two hosts for include/rest_rpc/rest_rpc_protocol.hpp, and its theorems on them.
use rest_rpc.Base.{◌≡◌, ◌≢◌, refl, arith}
use rest_rpc.Base.Bytes.{be_bytes}
use rest_rpc.Protocol.{
  big, store, htonll, RestRpcHeader, IsHeader, rest_magic_num, prepare_for_send, parse_recieved,
}
use rest_rpc.Protocol.Order.{parse_recieved-prepare_for_send, htonll_big_endian}
use rest_rpc.Protocol.Hosts.{little_host, big_host}

abbrev sample : RestRpcHeader
sample = record {
  magic = rest_magic_num;
  version = 1;
  serialize_type = 0;
  msg_type = 0;
  function_id = 0x90015098;
  seq_num = 5;
  body_len = 0x100000002;
  attach_length = 0;
}

sample-IsHeader : IsHeader sample
sample-IsHeader = omega arith

parse_recieved-prepare_for_send_example :
    parse_recieved little_host (prepare_for_send little_host sample) ≡ sample
parse_recieved-prepare_for_send_example =
    parse_recieved-prepare_for_send little_host sample sample-IsHeader

htonll_big_endian_example : store big 8 (htonll big_host 0x100000002) ≢ be_bytes 8 0x100000002
htonll_big_endian_example =
    htonll_big_endian big_host 0x100000002 (omega arith) refl (λ e. omega arith)

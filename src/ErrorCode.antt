-- ===== src/ErrorCode.antt =====
-- include/rest_rpc/error_code.h: the error codes, their values on the wire and their messages.
pub mod Laws
mod Examples
use Prim.Native.String.{String}
use rest_rpc.Base.{
  ℕ, zero, suc, ◌%◌, ◌^◌, Bool, true, false, ◌==◌, if◌then◌else◌, List, [], ◌∷◌, get_or,
}
use rest_rpc.Base.Words.{u8}

-- An `enum class` over `int8_t`: the named values, and the other bytes that a cast can give.
pub data RpcErrc : Type 0 where
  ok no_such_function no_such_key invalid_req_type function_exception : RpcErrc
  function_unknown_exception invalid_argument write_error read_error socket_closed : RpcErrc
  resolve_timeout connection_timeout request_timeout protocol_error has_response : RpcErrc
  duplicate_topic rpc_context_init_failed : RpcErrc
  unnamed : ℕ → RpcErrc

-- `static_cast<int>(e)`, as the byte that the value occupies.
unfoldable pub errc_value : RpcErrc → ℕ
errc_value ok = 0
errc_value no_such_function = 1
errc_value no_such_key = 2
errc_value invalid_req_type = 3
errc_value function_exception = 4
errc_value function_unknown_exception = 5
errc_value invalid_argument = 6
errc_value write_error = 7
errc_value read_error = 8
errc_value socket_closed = 9
errc_value resolve_timeout = 10
errc_value connection_timeout = 11
errc_value request_timeout = 12
errc_value protocol_error = 13
errc_value has_response = 14
errc_value duplicate_topic = 15
errc_value rpc_context_init_failed = 16
errc_value (unnamed b) = b

abbrev pub named : List RpcErrc
named =
    ok ∷ no_such_function ∷ no_such_key ∷ invalid_req_type ∷ function_exception
    ∷ function_unknown_exception ∷ invalid_argument ∷ write_error ∷ read_error ∷ socket_closed
    ∷ resolve_timeout ∷ connection_timeout ∷ request_timeout ∷ protocol_error ∷ has_response
    ∷ duplicate_topic ∷ rpc_context_init_failed ∷ []

-- `(rpc_errc)value`: the cast keeps the low byte.
unfoldable pub errc_of_value : ℕ → RpcErrc
errc_of_value value = get_or named (u8 value) (unnamed (u8 value))

-- `rpc_error_category::message`.
unfoldable pub text_of : RpcErrc → String
text_of ok = "ok"
text_of no_such_function = "no such function"
text_of no_such_key = "resolve failed"
text_of invalid_req_type = "invalid request type"
text_of function_exception = "logic function exception happend"
text_of function_unknown_exception = "unknown function exception happend"
text_of invalid_argument = "invalid argument"
text_of write_error = "write failed"
text_of read_error = "read failed"
text_of socket_closed = "socket closed"
text_of resolve_timeout = "resolve timeout"
text_of connection_timeout = "connect timeout"
text_of request_timeout = "request timeout"
text_of protocol_error = "protocol error"
text_of has_response = "has response, duplicate response is not allowed"
text_of duplicate_topic = "duplicate topic"
text_of rpc_context_init_failed =
    "the rpc context init failed, it must be created in rpc handler io thread, otherwise will init failed"
text_of (unnamed b) = "unknown error"

-- The argument is an `int`, as its bit pattern.
unfoldable pub message : ℕ → String
unfolding text_of errc_of_value
message ev = text_of (errc_of_value ev)

-- A `std::error_code`: a value and the category that it belongs to.
pub data Category : Type 0 where
  rest_rpc_error : Category
  system : Category
  generic : Category
  asio_misc : Category

pub record ErrorCode : Type 0 where
  pub value : ℕ
  pub category : Category

unfoldable pub make_error_code : RpcErrc → ErrorCode
make_error_code e = record { value = errc_value e; category = rest_rpc_error }

-- `if (ec)`.
abbrev pub is_error : ErrorCode → Bool
is_error ec = if ec.value == 0 then false else true

abbrev pub success : ErrorCode
success = record { value = 0; category = system }

-- `operator==(const std::error_code &, rpc_errc)`.
unfoldable pub eq_errc : ErrorCode → RpcErrc → Bool
eq_errc code ec = code.value == errc_value ec

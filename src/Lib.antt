-- ===== src/Lib.antt =====
-- rest_rpc, a C++20 library for remote procedure calls over TCP (include/rest_rpc).
--
-- A server registers functions under the MD5 hash of their names. A client sends a header of 32
-- bytes with that hash and the length of the packed arguments, and the arguments; the connection's
-- coroutine on the server reads both, has the router run the function, and writes a header, a byte
-- with an error code, and the packed result. A message of type 1 subscribes the connection to a
-- topic, and the server publishes to the connections of a topic.
--
-- Files, and what each models:
--   Md5            include/rest_rpc/md5.hpp, `MD5CE` and `MD5Hash32`; RFC 1321 is in Md5/Padding,
--                  Md5/Words, Md5/Mixing, Md5/Steps and Md5/Reference
--   StringLiteral  include/rest_rpc/md5.hpp, `string_literal`
--   Protocol       include/rest_rpc/rest_rpc_protocol.hpp: the header, its conversion between host
--                  and network order, and its bytes as the object lies in memory
--   ErrorCode      include/rest_rpc/error_code.h
--   Router         include/rest_rpc/rpc_router.hpp: `rpc_result` and `rpc_router`; Router/Handlers has
--                  the handlers that unpack arguments and pack results
--                  Router/Refinement has the table that a client may take the router for
--   FunctionName   include/rest_rpc/function_name.h and util.hpp: the name of a function, cut out of
--                  the compiler's text, and its key; registration by that name
--   Traits         include/rest_rpc/traits.h, and the types of asio_util.hpp: what the templates ask
--                  of C++ types, as functions on a data type of them
--   AsioUtil       include/rest_rpc/asio_util.hpp: the ways to start a coroutine
--   IoContextPool  include/rest_rpc/io_context_pool.hpp
--   Logger         include/rest_rpc/logger.hpp
--   StringResize   include/rest_rpc/string_resize.hpp
--   Codec          include/rest_rpc/codec.h, on values that know their C++ type; Codec/Floating has
--                  the floating-point types
--   Transport      the parameter that stands for asio's sockets, the clock and memory; Transport/Pipe
--                  is one that can be run, and Transport/Finite has those whose input ends
--   Connection     include/rest_rpc/rpc_connection.hpp: `tls_data`, `rpc_context`, `rpc_connection`;
--                  Connection/Passes has the ways of a pass of its loop, as a step relation
--   Server         include/rest_rpc/rpc_server.hpp: construction and starting, and the table of
--                  connections; Server/Starting/Waiting has the two ways of starting
--   Client         include/rest_rpc/rpc_client.hpp: connecting, a call and the wait for its response,
--                  subscribing, and the packing of arguments; Client/Replies has the ways of a call,
--                  Client/Running these operations in any order
--   Exchange       a client's call and the server's pass on it, over pipes; arguments on their way
--                  from the client to a registered function; a whole call, arguments and result, and
--                  one that is answered later through an `rpc_context`; several requests in a row;
--                  a subscription and the messages to it, in any run of the server's steps;
--                  Exchange/Remote has calls one after the other over a client and a connection whose
--                  pipes are joined
--   Demo           examples/server.cpp and client.cpp: the registered functions and the calls of
--                  them, `basict_usage` with what it logs, the publisher's loop and the
--                  subscriber's
--   Base           words, bytes, bits, maps, texts and the lemmas on them
--
-- Definitions have the names of the functions they model, in lower case with underscores; a
-- coroutine is cut where it suspends, so that `start` is `start_pass`, `after_header`,
-- `start_header`, `start_body`, `after_body`, `start_route` and `after_route`. Member functions take
-- the object's record and return the new one. A handler is any function on sessions, which may
-- change the connection, the thread's data and the application's state, and may end with an
-- exception. Texts are lists of bytes.
--
-- Fuel: the loop over the blocks of a message in `process_message` has fuel for one pass more than
-- the padded message has blocks, for the last test. `start` and the example's `sub_loop` make at most
-- the number of passes they are given, since the loops of the source go on until an error; what is
-- stated of `start` is for every number, and Connection/Ending has the number that is enough where the input ends. Printing a
-- decimal number has fuel for 20 digits, as many as 64 bits can need, and for 309 before the point of
-- a `double`. All other loops are over lists.
--
-- Not modelled: threads and their interleaving below the level of a step; time outside the clock's
-- readings; what the library itself logs; infinities and what is no number, and how
-- `std::from_chars` reads a floating-point number; struct_pack's format and the texts in which
-- compilers name functions, asio's `co_spawn` and the wait for a future, which are parameters; options of sockets.
mod Base
pub mod Md5
pub mod Protocol
pub mod ErrorCode
pub mod Router
pub mod FunctionName
pub mod Traits
pub mod Logger
pub mod IoContextPool
pub mod AsioUtil
pub mod Codec
pub mod StringLiteral
pub mod StringResize
pub mod Transport
pub mod Connection
pub mod Server
pub mod Client
pub mod Exchange
pub mod Demo

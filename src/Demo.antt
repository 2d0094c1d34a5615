-- ===== src/Demo.antt =====
-- The publisher of examples/server.cpp and the subscriber of examples/client.cpp, on the operations
-- of include/rest_rpc/rpc_server.hpp and rpc_client.hpp that they call.
pub mod Functions
pub mod Usage
pub mod ClientUsage
pub mod Reporting
pub mod Program
pub mod Publisher
pub mod Subscriber
mod Examples
mod Called
use rest_rpc.Base.{
  ℕ, zero, suc, Bool, true, false, ◌==◌, ◌&&◌, if◌then◌else◌, List, [], ◌∷◌, Option, none, some,
}
use rest_rpc.Base.Text.{codes}
use rest_rpc.Base.Views.{same_text}
use rest_rpc.ErrorCode.{RpcErrc, errc_value, ok}
use rest_rpc.Protocol.{Host}
use rest_rpc.Router.{Text, result_of_view}
use rest_rpc.Transport.{Transport}
use rest_rpc.Connection.{Next, again, ended, escaped}
use rest_rpc.Client.{Unpacked, value, CallEnd, returned, threw, out_of_bounds, RpcClient}
use rest_rpc.Client.Subscriptions.{subscribe}
use rest_rpc.Server.{RpcServer, publish}

abbrev pub topic : Text
topic = codes "topic1"

module _ (host : Host) (t : Transport) (App : Type 0) where
  -- The loop of `pub` on the words that are read; it goes on for more of them where there are none
  -- left.
  unfoldable pub pub_loop : List Text → RpcServer host t App → RpcServer host t App × Next
  pub_loop [] server = (server, again)
  pub_loop (str ∷ words) server =
      let rest = pub_loop words (publish host t App topic (result_of_view str) server) in
      if same_text str (codes "quit") then (server, ended) else rest

module _ (host : Host) (t : Transport) where
  -- `rpc_codec::unpack<std::string>`.
  abbrev pub as_string : Text → Unpacked Text
  as_string data_in = value data_in

  -- What a pass of the loop of `sub` does with the result of `subscribe`: the text that it logs, if
  -- any, and whether it goes on. A result with code ok has a value.
  unfoldable pub sub_result : CallEnd Text → Option Text × Next
  sub_result (threw what) = (none, escaped)
  sub_result out_of_bounds = (none, escaped)
  sub_result (returned ec none) = (none, ended)
  sub_result (returned ec (some result)) =
      if errc_value ec == errc_value ok
      then (if same_text result (codes "close") then (none, ended) else (some result, again))
      else (none, ended)

  log_more : Text → RpcClient host t × List Text × Next → RpcClient host t × List Text × Next
  log_more text (c, logged, next) = (c, text ∷ logged, next)

  sub_next :
      (RpcClient host t → RpcClient host t × List Text × Next)
      → RpcClient host t
      → Option Text × Next
      → RpcClient host t × List Text × Next
  sub_next loop c (some text, again) = log_more text (loop c)
  sub_next loop c (some text, next) = (c, text ∷ [], next)
  sub_next loop c (none, next) = (c, [], next)

  -- At most so many passes of the loop, with what they log.
  unfoldable pub sub_loop : ℕ → RpcClient host t → RpcClient host t × List Text × Next
  unfolding sub_next log_more
  sub_loop zero c = (c, [], again)
  sub_loop (suc passes) c =
      let r = subscribe host t (some as_string) topic c in
      sub_next (sub_loop passes) r.0 (sub_result r.1)

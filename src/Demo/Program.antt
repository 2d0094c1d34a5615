-- ===== src/Demo/Program.antt =====
-- `basict_usage` of examples/server.cpp from end to end: a server is made and started, a client
-- connects to it, calls its functions and logs what they return.
pub mod Prints
use rest_rpc.Base.{
  ◌≡◌, refl, ◌∙◌, ap, arith, Bool, true, false, ◌==◌, if◌then◌else◌, List, [], ◌∷◌, ◌++◌, Option,
  some, none, map, All,
}
use rest_rpc.Base.Text.{codes}
use rest_rpc.Base.Integers.{ℤ, pos, integer_to_string}
use rest_rpc.Base.Views.{same_text}
use rest_rpc.ErrorCode.{ErrorCode, is_error, success}
use rest_rpc.Protocol.{Host}
use rest_rpc.Router.{Text, RpcRouter, Result, done, invalid_argument}
use rest_rpc.Codec.{Datum, basic, object, number, text}
use rest_rpc.Logger.{Streams, Level, info, error, log, log_all}
use rest_rpc.Transport.Pipe.{Pipe, pipe_transport}
use rest_rpc.Connection.{Session}
use rest_rpc.Client.{RpcClient}
use rest_rpc.Client.Connecting.{
  Timed, finished, connect, connect_at, connect_at-has_closed, after_resolve, after_connect,
  rpc_client,
}
use rest_rpc.Server.{RpcServer, new_connection}
use rest_rpc.Server.Constructing.{rpc_server, rpc_server_at}
use rest_rpc.Server.Starting.{ListenEnds, start_impl}
use rest_rpc.Exchange.Remote.{Link}
use rest_rpc.Exchange.Remote.Local.{Call, IsJoined}
use rest_rpc.Demo.Functions.{
  int, Person, StructPack, packer, view_of, int_of, person_of, usage_router,
}
use rest_rpc.Demo.Usage.{usage_calls, usage_calls-values, IsSized, call_of}
use rest_rpc.Demo.Reporting.{Ran, escaped, Report, Reported, rpc_calls, rpc_calls-logged}
use rest_rpc.Demo.Reporting

-- The text that a stream makes of a result, or of a person's name.
abbrev pub shown : Datum Person → Text
shown (basic (number t z)) = integer_to_string z
shown (basic (text k str)) = str
shown (object id p) = p.name

-- The tests of the asserts.
abbrev pub is_text : Text → Datum Person → Bool
is_text str (basic (text k str')) = same_text str' str
is_text str d = false

abbrev pub is_three : Datum Person → Bool
is_three (basic (number t (pos n))) = n == 3
is_three d = false

abbrev pub is_named : Text → Datum Person → Bool
is_named name (object id p) = same_text p.name name
is_named name d = false

abbrev pub logs : (Datum Person → Bool) → Report
logs expected = record { is_logged = true; shown = shown; expected = expected }

abbrev pub asserts : (Datum Person → Bool) → Report
asserts expected = record { is_logged = false; shown = shown; expected = expected }

abbrev pub tom : Person
tom = record { id = pos 1; name = codes "tom"; age = pos 20 }

abbrev pub home : Text
home = codes "127.0.0.1"

abbrev pub port : Text
port = codes "9004"

-- What the program finds: whether it is a release build, the texts of error codes, the ends of the
-- system's calls, the sockets, and the state that the functions may use.
pub record World (App : Type 0) : Type 0 where
  pub ndebug : Bool
  pub message : ErrorCode → Text
  pub ends : ListenEnds
  pub static_ec : ErrorCode
  pub resolve : Text → Text → Timed Pipe
  pub opened : Pipe
  pub connected : Timed Pipe
  pub socket : Pipe
  pub accepted : Pipe
  pub app : App

module _ (host : Host) (App : Type 0) (pack : StructPack) where
  abbrev Server : Type 0
  Server = RpcServer host pipe_transport App

  abbrev Router : Type 0
  Router = RpcRouter (Session host pipe_transport App)

  abbrev zipped :
      {router : Router}
      → List (Call host false App (packer pack) router)
      → List Report
      → List (Reported host false App pack router)
  zipped [] hows = []
  zipped (q ∷ qs) [] = []
  zipped (q ∷ qs) (how ∷ hows) = (q, how) ∷ zipped qs hows

  abbrev pub calls : (router : Router) → List (Call host false App (packer pack) router)
  calls router =
      usage_calls host false App pack router (codes "test") (codes "test1") (pos 1) (pos 2) tom

  -- The calls of `rpc_call` with what it does with their results.
  abbrev pub usage_reported : (router : Router) → List (Reported host false App pack router)
  usage_reported router = zipped (calls router) (
      logs (is_text (codes "test"))
      ∷ asserts (is_text (codes "test1"))
      ∷ logs is_three
      ∷ logs (is_named (codes "jack"))
      ∷ [])

  module _ (w : World App) where
    -- After the client's `connect`, with the connection that the server's `accept` makes.
    usage_connected :
        Server
        → Router
        → Option (RpcClient host pipe_transport × ErrorCode)
        → Streams
        → Streams × Ran
    usage_connected server router none s = (s, escaped)
    usage_connected server router (some (client, ec0)) s =
        if is_error ec0
        then (log w.ndebug error (w.message ec0 ∷ []) s, Reporting.finished)
        else rpc_calls host false App pack router w.ndebug (usage_reported router)
            (client, new_connection host pipe_transport App server w.accepted w.app) s

    -- After the start; the functions do not change any more.
    usage_started : Router → Server × ErrorCode × ErrorCode → Streams → Streams × Ran
    unfolding usage_connected
    usage_started router (server, static_ec, ec) s =
        if is_error ec
        then (log w.ndebug error (w.message ec ∷ []) s, Reporting.finished)
        else usage_connected server router
            (connect_at host pipe_transport (home ++ (58 ∷ port)) w.resolve w.opened w.connected
              (rpc_client host pipe_transport w.socket))
            s

    usage_registered : Server → Result Router → Streams → Streams × Ran
    unfolding usage_started
    usage_registered server (invalid_argument what) s = (s, escaped)
    usage_registered server (done router) s =
        usage_started router
          (start_impl host pipe_transport App true w.ends (λ server. server) w.static_ec
            (record server { router = router }))
          s

    usage_made : Option Server → Streams → Streams × Ran
    unfolding usage_registered
    usage_made none s = (s, escaped)
    usage_made (some server) s = usage_registered server (usage_router App host pack) s

    unfoldable pub basict_usage : Streams → Streams × Ran
    unfolding usage_made
    basict_usage s = usage_made (rpc_server_at host pipe_transport App (home ++ (58 ∷ port)) 4) s

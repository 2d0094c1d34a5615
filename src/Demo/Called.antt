-- ===== src/Demo/Called.antt =====
-- `basict_usage` of examples/server.cpp in a debug build where all goes well, with a serializer that
-- can be run.
use rest_rpc.Base.{
  ℕ, zero, suc, ◌+◌, ◌<◌, ◌≤◌, ◌≡◌, refl, ap, true, false, List, [], ◌∷◌, ◌++◌, none, length, map,
  take, drop, take-append, drop-append,
}
use rest_rpc.Base.Text.{codes}
use rest_rpc.Base.Integers.{ℤ, pos, negsuc}
use rest_rpc.Protocol.Hosts.{little_host}
use rest_rpc.Router.{Text, RpcRouter, empty_router}
use rest_rpc.Router.Registry.{registered}
use rest_rpc.Router.Handlers.{invoker}
use rest_rpc.Codec.{
  Unpacked, value, bad, Kind, integer, textual, other, string_view, Datum, basic, number, text,
  object, kind_of,
}
use rest_rpc.Transport.Pipe.{Pipe, pipe_transport}
use rest_rpc.Connection.{Session}
use rest_rpc.Exchange.Remote.{Link}
use rest_rpc.Exchange.Remote.Serving.{on_session}
use rest_rpc.Exchange.Remote.Local.{IsJoined, ok_end, remote_calls}
use rest_rpc.Demo.Functions.{
  int, Person, StructPack, packer, person_type, echo, echo_coro, add, get_person,
}
use rest_rpc.Demo.Usage.{usage_calls}
use rest_rpc.Demo.Program.{World}
use rest_rpc.Demo.Reporting
use rest_rpc.Logger.{Streams}
use rest_rpc.ErrorCode.{success}
use rest_rpc.Client.Connecting.{finished}
use rest_rpc.Server.Starting.{ListenEnds}

sign : ℤ → ℕ
sign (pos n) = 0
sign (negsuc n) = 1

size_of : ℤ → ℕ
size_of (pos n) = n
size_of (negsuc n) = n

written_text : Text → Text → Text
written_text str rest = length str ∷ (str ++ rest)

written : List (Datum Person) → Text
unfolding written_text sign size_of
written [] = []
written (basic (number t z) ∷ ds) = sign z ∷ size_of z ∷ written ds
written (basic (text k str) ∷ ds) = written_text str (written ds)
written (object id p ∷ ds) =
    sign p.id ∷ size_of p.id ∷ sign p.age ∷ size_of p.age ∷ written_text p.name (written ds)

and_then : Datum Person → Unpacked (List (Datum Person)) → Unpacked (List (Datum Person))
and_then d (value ds) = value (d ∷ ds)
and_then d (bad what) = bad what

integer_of : ℕ → ℕ → ℤ
integer_of zero n = pos n
integer_of (suc tag) n = negsuc n

read_back : List Kind → Text → Unpacked (List (Datum Person))
unfolding and_then integer_of
read_back [] bytes = value []
read_back (integer t ∷ ks) (tag ∷ n ∷ bytes) =
    and_then (basic (number t (integer_of tag n))) (read_back ks bytes)
read_back (textual k ∷ ks) (n ∷ bytes) =
    and_then (basic (text k (take n bytes))) (read_back ks (drop n bytes))
read_back (other id ∷ ks) (i ∷ m ∷ a ∷ n ∷ l ∷ bytes) =
    and_then (object id (record { id = integer_of i m; age = integer_of a n; name = take l bytes }))
      (read_back ks (drop l bytes))
read_back (k ∷ ks) bytes = bad (codes "too short")

integer_of-sign : (z : ℤ) → integer_of (sign z) (size_of z) ≡ z
unfolding integer_of sign size_of
integer_of-sign (pos n) = refl
integer_of-sign (negsuc n) = refl

read_back-written : (ds : List (Datum Person)) → read_back (map kind_of ds) (written ds) ≡ value ds
unfolding read_back written
read_back-written [] = refl
read_back-written (basic (number t z) ∷ ds) =
    rw (integer_of-sign z) (ap (and_then (basic (number t z))) (read_back-written ds))
read_back-written (basic (text k str) ∷ ds) =
    rw (take-append str (written ds), drop-append str (written ds))
      (ap (and_then (basic (text k str))) (read_back-written ds))
read_back-written (object i p ∷ ds) =
    rw
      (
        integer_of-sign p.id,
        integer_of-sign p.age,
        take-append p.name (written ds),
        drop-append p.name (written ds),
      )
      (ap (and_then (object i p)) (read_back-written ds))

abbrev pack : StructPack
pack = record {
  serialize = written;
  deserialize = read_back;
  deserialize-serialize = read_back-written;
}

abbrev Here : Type 0
Here = Session little_host pipe_transport (Unit {0})

abbrev with_echo : RpcRouter Here
with_echo =
    registered (codes "echo")
      (invoker (packer pack) (textual string_view ∷ [])
        (on_session little_host (Unit {0}) (packer pack) (echo (Unit {0}))))
      empty_router

abbrev with_coro : RpcRouter Here
with_coro =
    registered (codes "echo_coro")
      (invoker (packer pack) (textual string_view ∷ [])
        (on_session little_host (Unit {0}) (packer pack) (echo_coro (Unit {0}))))
      with_echo

abbrev with_add : RpcRouter Here
with_add =
    registered (codes "dummy::add")
      (invoker (packer pack) (integer int ∷ integer int ∷ [])
        (on_session little_host (Unit {0}) (packer pack) (add (Unit {0}))))
      with_coro

abbrev router : RpcRouter Here
router =
    registered (codes "get_person")
      (invoker (packer pack) (other person_type ∷ [])
        (on_session little_host (Unit {0}) (packer pack) (get_person (Unit {0}))))
      with_add

abbrev tom : Person
tom = record { id = pos 1; name = codes "tom"; age = pos 20 }

abbrev calls :
    List (rest_rpc.Exchange.Remote.Local.Call little_host false (Unit {0}) (packer pack) router)
calls =
    usage_calls little_host false (Unit {0}) pack router (codes "test") (codes "test1") (pos 1)
      (pos 2) tom

abbrev quiet : Pipe
quiet = record { incoming = []; outgoing = []; clock = 9; is_open = true }

abbrev all_well : ListenEnds
all_well = record {
  resolve = λ host_name port. (5, success);
  open_ec = success;
  bind_ec = success;
  listen_ec = success;
}

abbrev world : World (Unit {0})
world = record {
  ndebug = false;
  message = λ ec. [];
  ends = all_well;
  static_ec = success;
  resolve = λ host_name port. finished quiet success;
  opened = quiet;
  connected = finished quiet success;
  socket = quiet;
  accepted = quiet;
  app = tt;
}

abbrev nothing : Streams
nothing = record { cout = []; cerr = [] }

-- ===== src/Demo/ClientUsage.antt =====
-- `basic_usage` of examples/client.cpp: its calls of the functions that `publish` of examples/server.cpp
-- registers.
use rest_rpc.Base.{◌≡◌, ◌≢◌, refl, arith, Bool, false, List, [], ◌∷◌, map, All, inr}
use rest_rpc.Base.Text.{codes}
use rest_rpc.Base.Integers.{ℤ, Fits}
use rest_rpc.Md5.Examples.{md5_hash32_functions}
use rest_rpc.Protocol.{Host}
use rest_rpc.Router.{Text, RpcRouter, done, empty_router, key_of}
use rest_rpc.Codec.{integer, textual, string_view, is_basic}
use rest_rpc.Transport.Pipe.{pipe_transport}
use rest_rpc.Connection.{Session}
use rest_rpc.Client.Arguments.{is_basic_argument}
use rest_rpc.Exchange.Remote.{Link}
use rest_rpc.Exchange.Remote.Local.{
  Call, IsServed, IsJoined, ok_end, local_calls, remote_calls, remote_calls-local_calls,
}
use rest_rpc.Demo.Functions.{
  int, ◌+ℤ◌, StructPack, packer, view_of, int_of, echo, add, publish_router,
}
use rest_rpc.Demo.Usage.{
  then_register-IsRegistered, then_register-IsRegistered_ne, call_of, IsSized, served,
}

echo-ne-add : key_of (codes "add") ≢ key_of (codes "echo")
echo-ne-add e = omega (arith, e, md5_hash32_functions.0, md5_hash32_functions.4)

module _ (host : Host) (cross : Bool) (App : Type 0) (pack : StructPack)
    (router : RpcRouter (Session host pipe_transport App)) where
  -- The calls of `basic_usage`, in their order.
  unfoldable pub client_calls : Text → ℤ → ℤ → List (Call host cross App (packer pack) router)
  client_calls str x y =
      call_of host cross App pack router (codes "echo") false (view_of str ∷ [])
        (textual string_view) (echo App)
      ∷ call_of host cross App pack router (codes "add") false (int_of x ∷ int_of y ∷ [])
          (integer int) (add App)
      ∷ []

  client_calls-IsServed :
      (str : Text) (x y : ℤ)
      → publish_router App host pack ≡ done router
      → Fits int (x +ℤ y)
      → All (IsSized host cross App pack router) (client_calls str x y)
      → All (IsServed host cross App (packer pack) router) (client_calls str x y)
  unfolding client_calls publish_router is_basic is_basic_argument echo add
  client_calls-IsServed str x y registered fits (one, (two, end)) = (
    served host cross App pack router _ (omega (arith, md5_hash32_functions.0)) one
        (then_register-IsRegistered_ne host cross App pack _ router (codes "echo") (codes "add")
          false (view_of str ∷ []) (echo App) (integer int ∷ integer int ∷ []) (add App) echo-ne-add
          (λ q h.
            then_register-IsRegistered host cross App pack (done empty_router) q (codes "echo")
              false (view_of str ∷ []) (echo App) (inr refl, refl) h)
          registered)
        (λ a. (refl, inr refl)),
    (
      served host cross App pack router _ (omega (arith, md5_hash32_functions.4)) two
          (then_register-IsRegistered host cross App pack _ router (codes "add") false
            (int_of x ∷ int_of y ∷ []) (add App) tt registered)
          (λ a. (refl, (omega arith, fits))),
      tt,
    ),
  )

  -- They return what the asserts ask for, the text that was sent and the sum, each with code ok, where
  -- the server of `publish` is at the other end of the link.
  pub client_calls-values :
      (str : Text) (x y : ℤ) (l : Link host App router)
      → publish_router App host pack ≡ done router
      → Fits int (x +ℤ y)
      → All (IsSized host cross App pack router) (client_calls str x y)
      → IsJoined host cross App (packer pack) router l
      → (remote_calls host cross App (packer pack) router (client_calls str x y) l).0
        ≡ map (ok_end host cross App (packer pack) router) (view_of str ∷ int_of (x +ℤ y) ∷ [])
  unfolding client_calls local_calls echo add
  client_calls-values str x y l registered fits sized joined =
      (remote_calls-local_calls host cross App (packer pack) router (client_calls str x y) l
        (client_calls-IsServed str x y registered fits sized) joined).0

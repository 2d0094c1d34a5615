-- ===== src/Demo/Usage.antt =====
-- `basict_usage` of examples/server.cpp: its calls over a link, and what their asserts look at.
use rest_rpc.Base.{
  ◌+◌, ◌^◌, ◌≤◌, ◌<◌, ◌≡◌, ◌≢◌, refl, arith, Bool, true, false, List, [], ◌∷◌, length, map, All,
  inr,
}
use rest_rpc.Base.Text.{codes}
use rest_rpc.Base.Integers.{ℤ, Fits}
use rest_rpc.Md5.Examples.{md5_hash32_functions}
use rest_rpc.Protocol.{Host}
use rest_rpc.Router.{
  Text, RpcRouter, Result, done, invalid_argument, result_size, key_of, empty_router,
}
use rest_rpc.Codec.{Kind, integer, textual, string_view, other, is_basic, Datum, kind_of}
use rest_rpc.Codec.RoundTrip.{Sendable}
use rest_rpc.Transport.Pipe.{pipe_transport}
use rest_rpc.Connection.{Session}
use rest_rpc.Client.Arguments.{is_basic_argument}
use rest_rpc.Exchange.Arguments.{AreSendable}
use rest_rpc.Exchange.Whole.{result_of}
use rest_rpc.Exchange.Remote.{Link}
use rest_rpc.Exchange.Remote.Serving.{
  IsRegistered, register_handler-IsRegistered, register_handler-IsRegistered_ne,
}
use rest_rpc.Exchange.Remote.Local.{
  Call, IsServed, IsJoined, run, buf_of, ok_end, local_calls, remote_calls,
  remote_calls-local_calls,
}
use rest_rpc.Demo.Functions.{
  int, ◌+ℤ◌, Person, StructPack, packer, person_type, view_of, int_of, person_of, Shared, echo,
  echo_coro, add, get_person, then_register, usage_router,
}

module _ (host : Host) (cross : Bool) (App : Type 0) (pack : StructPack) where
  -- What the last registration serves.
  pub then_register-IsRegistered :
      (r : Result (RpcRouter (Session host pipe_transport App)))
      (r' : RpcRouter (Session host pipe_transport App)) (name : Text) (is_lvalue : Bool)
      (ds : List (Datum Person)) (f : Shared App)
      → AreSendable is_lvalue ds
      → then_register App host pack r name (map kind_of ds) f ≡ done r'
      → IsRegistered host App (packer pack) r' name is_lvalue ds f
  then_register-IsRegistered (done r) r' name is_lvalue ds f sendable h =
      register_handler-IsRegistered host App (packer pack) name is_lvalue ds f r r' sendable h
  then_register-IsRegistered (invalid_argument what) r' name is_lvalue ds f sendable h = cc

  -- What an earlier one does.
  pub then_register-IsRegistered_ne :
      (r : Result (RpcRouter (Session host pipe_transport App)))
      (r' : RpcRouter (Session host pipe_transport App)) (name later : Text) (is_lvalue : Bool)
      (ds : List (Datum Person)) (f : Shared App) (kinds : List Kind) (g : Shared App)
      → key_of later ≢ key_of name
      → ((q : RpcRouter (Session host pipe_transport App))
          → r ≡ done q
          → IsRegistered host App (packer pack) q name is_lvalue ds f)
      → then_register App host pack r later kinds g ≡ done r'
      → IsRegistered host App (packer pack) r' name is_lvalue ds f
  then_register-IsRegistered_ne (done r) r' name later is_lvalue ds f kinds g ne before h =
      register_handler-IsRegistered_ne host App (packer pack) name later is_lvalue ds f _ r r' h ne
        (before r refl)
  then_register-IsRegistered_ne (invalid_argument what) r' name later is_lvalue ds f kinds g ne
        before h =
      cc

  echo-ne-get_person : key_of (codes "get_person") ≢ key_of (codes "echo")
  echo-ne-get_person e = omega (arith, e, md5_hash32_functions.0, md5_hash32_functions.3)

  echo-ne-add : key_of (codes "dummy::add") ≢ key_of (codes "echo")
  echo-ne-add e = omega (arith, e, md5_hash32_functions.0, md5_hash32_functions.2)

  echo-ne-echo_coro : key_of (codes "echo_coro") ≢ key_of (codes "echo")
  echo-ne-echo_coro e = omega (arith, e, md5_hash32_functions.0, md5_hash32_functions.1)

  echo_coro-ne-get_person : key_of (codes "get_person") ≢ key_of (codes "echo_coro")
  echo_coro-ne-get_person e = omega (arith, e, md5_hash32_functions.1, md5_hash32_functions.3)

  echo_coro-ne-add : key_of (codes "dummy::add") ≢ key_of (codes "echo_coro")
  echo_coro-ne-add e = omega (arith, e, md5_hash32_functions.1, md5_hash32_functions.2)

  add-ne-get_person : key_of (codes "get_person") ≢ key_of (codes "dummy::add")
  add-ne-get_person e = omega (arith, e, md5_hash32_functions.2, md5_hash32_functions.3)

  module _ (router : RpcRouter (Session host pipe_transport App)) where
    -- A call of a function with these arguments.
    abbrev pub call_of :
        Text
        → Bool
        → List (Datum Person)
        → Kind
        → Shared App
        → Call host cross App (packer pack) router
    call_of name is_lvalue ds kind f = record {
      name = name;
      is_lvalue = is_lvalue;
      arguments = ds;
      kind = kind;
      f = f;
    }

    -- The calls of `basict_usage`, in their order.
    unfoldable pub usage_calls :
        Text → Text → ℤ → ℤ → Person → List (Call host cross App (packer pack) router)
    usage_calls str str1 x y p =
        call_of (codes "echo") false (view_of str ∷ []) (textual string_view) (echo App)
        ∷ call_of (codes "echo_coro") false (view_of str1 ∷ []) (textual string_view)
            (echo_coro App)
        ∷ call_of (codes "dummy::add") false (int_of x ∷ int_of y ∷ []) (integer int) (add App)
        ∷ call_of (codes "get_person") true (person_of p ∷ []) (other person_type) (get_person App)
        ∷ []

    -- The lengths of a call's arguments and of its result fit.
    abbrev pub IsSized : Call host cross App (packer pack) router → Type 0
    IsSized q =
        (0 < length (buf_of host cross App (packer pack) router q))
        × (length (buf_of host cross App (packer pack) router q) < 0x7fffffff)
        × ((a : App)
            → result_size (result_of (packer pack) (run host cross App (packer pack) router q a).0)
                + 1
              ≤ 0x7fffffff)

    module _ (registered : usage_router App host pack ≡ done router) where
      echo-IsRegistered :
          (str : Text)
          → IsRegistered host App
              (packer pack)
              router
              (codes "echo")
              false
              (view_of str ∷ [])
              (echo App)
      unfolding usage_router is_basic is_basic_argument
      echo-IsRegistered str =
          then_register-IsRegistered_ne _ router (codes "echo") (codes "get_person") false
            (view_of str ∷ []) (echo App) (other person_type ∷ []) (get_person App)
            (echo-ne-get_person)
            (λ q h.
              then_register-IsRegistered_ne _ q (codes "echo") (codes "dummy::add") false
                (view_of str ∷ []) (echo App) (integer int ∷ integer int ∷ []) (add App)
                (echo-ne-add)
                (λ q h.
                  then_register-IsRegistered_ne _ q (codes "echo") (codes "echo_coro") false
                    (view_of str ∷ []) (echo App) (textual string_view ∷ []) (echo_coro App)
                    (echo-ne-echo_coro)
                    (λ q h.
                      then_register-IsRegistered (done empty_router) q (codes "echo") false
                        (view_of str ∷ []) (echo App) (inr refl, refl) h)
                    h)
                h)
            registered

      echo_coro-IsRegistered :
          (str1 : Text)
          → IsRegistered host App
              (packer pack)
              router
              (codes "echo_coro")
              false
              (view_of str1 ∷ [])
              (echo_coro App)
      unfolding usage_router is_basic is_basic_argument
      echo_coro-IsRegistered str1 =
          then_register-IsRegistered_ne _ router (codes "echo_coro") (codes "get_person") false
            (view_of str1 ∷ []) (echo_coro App) (other person_type ∷ []) (get_person App)
            (echo_coro-ne-get_person)
            (λ q h.
              then_register-IsRegistered_ne _ q (codes "echo_coro") (codes "dummy::add") false
                (view_of str1 ∷ []) (echo_coro App) (integer int ∷ integer int ∷ []) (add App)
                (echo_coro-ne-add)
                (λ q h.
                  then_register-IsRegistered _ q (codes "echo_coro") false (view_of str1 ∷ [])
                    (echo_coro App) (inr refl, refl) h)
                h)
            registered

      add-IsRegistered :
          (x y : ℤ)
          → IsRegistered host App
              (packer pack)
              router
              (codes "dummy::add")
              false
              (int_of x ∷ int_of y ∷ [])
              (add App)
      unfolding usage_router
      add-IsRegistered x y =
          then_register-IsRegistered_ne _ router (codes "dummy::add") (codes "get_person") false
            (int_of x ∷ int_of y ∷ []) (add App) (other person_type ∷ []) (get_person App)
            (add-ne-get_person)
            (λ q h.
              then_register-IsRegistered _ q (codes "dummy::add") false (int_of x ∷ int_of y ∷ [])
                (add App) tt h)
            registered

      get_person-IsRegistered :
          (p : Person)
          → IsRegistered host App
              (packer pack)
              router
              (codes "get_person")
              true
              (person_of p ∷ [])
              (get_person App)
      unfolding usage_router is_basic is_basic_argument
      get_person-IsRegistered p =
          then_register-IsRegistered _ router (codes "get_person") true (person_of p ∷ [])
            (get_person App) (tt, refl) registered

    pub served :
        (q : Call host cross App (packer pack) router)
        → key_of q.name < 2 ^ 32
        → IsSized q
        → IsRegistered host App (packer pack) router q.name q.is_lvalue q.arguments q.f
        → ((a : App)
            → (kind_of (run host cross App (packer pack) router q a).0 ≡ q.kind)
              × Sendable (run host cross App (packer pack) router q a).0)
        → IsServed host cross App (packer pack) router q
    served q key_fits sized routes results = record {
      key_fits = key_fits;
      pos = sized.0;
      short = sized.1;
      registered = routes;
      typed = λ a. (results a).0;
      sendable = λ a. (results a).1;
      fits = sized.2;
    }

    usage_calls-IsServed :
        (str str1 : Text) (x y : ℤ) (p : Person)
        → usage_router App host pack ≡ done router
        → Fits int (x +ℤ y)
        → All IsSized (usage_calls str str1 x y p)
        → All (IsServed host cross App (packer pack) router) (usage_calls str str1 x y p)
    unfolding usage_calls echo echo_coro add get_person
    usage_calls-IsServed str str1 x y p registered fits (one, (two, (three, (four, end)))) = (
      served _ (omega (arith, md5_hash32_functions.0)) one (echo-IsRegistered registered str)
          (λ a. (refl, inr refl)),
      (
        served _ (omega (arith, md5_hash32_functions.1)) two
            (echo_coro-IsRegistered registered str1) (λ a. (refl, inr refl)),
        (
          served _ (omega (arith, md5_hash32_functions.2)) three (add-IsRegistered registered x y)
              (λ a. (refl, (omega arith, fits))),
          (
            served _ (omega (arith, md5_hash32_functions.3)) four
                (get_person-IsRegistered registered p) (λ a. (refl, tt)),
            tt,
          ),
        ),
      ),
    )

    -- The calls of `basict_usage` return what its asserts ask for: the text that was sent, from `echo`
    -- and from the coroutine, the sum, and the person under the name "jack", each with code ok. The
    -- link's pipes are open and empty, both ends agree on conversion, the registrations have
    -- succeeded, the lengths fit, the texts are not empty, the sum is an `int`, and struct_pack reads
    -- back what it has written.
    pub usage_calls-values :
        (str str1 : Text) (x y : ℤ) (p : Person) (l : Link host App router)
        → usage_router App host pack ≡ done router
        → Fits int (x +ℤ y)
        → All IsSized (usage_calls str str1 x y p)
        → IsJoined host cross App (packer pack) router l
        → (remote_calls host cross App (packer pack) router (usage_calls str str1 x y p) l).0
          ≡ map (ok_end host cross App (packer pack) router) (
              view_of str
              ∷ view_of str1
              ∷ int_of (x +ℤ y)
              ∷ person_of (record p { name = codes "jack" })
              ∷ [])
    unfolding usage_calls local_calls echo echo_coro add get_person
    usage_calls-values str str1 x y p l registered fits sized joined =
        (remote_calls-local_calls host cross App (packer pack) router (usage_calls str str1 x y p) l
          (usage_calls-IsServed str str1 x y p registered fits sized) joined).0

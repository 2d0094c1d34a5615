-- ===== src/Demo/Reporting.antt =====
-- What examples/server.cpp and examples/client.cpp do with the results of their calls: they log them
-- and assert what they are.
use rest_rpc.Base.{
  ◌≡◌, refl, ◌∙◌, ap, arith, Bool-cases, inl, inr, ◌&&◌, Bool, true, false, ◌==◌, ◌||◌,
  if◌then◌else◌, List, [], ◌∷◌, some, none, map,
}
use rest_rpc.Base.Text.{codes}
use rest_rpc.ErrorCode.{errc_value, ok}
use rest_rpc.Protocol.{Host}
use rest_rpc.Router.{Text, RpcRouter, key_of}
use rest_rpc.Codec.{Datum, unpack}
use rest_rpc.Logger.{Streams, Level, info, log, log_all}
use rest_rpc.Transport.Pipe.{pipe_transport}
use rest_rpc.Connection.{Session}
use rest_rpc.Client.{CallEnd, returned, threw, out_of_bounds}
use rest_rpc.Exchange.Remote.{Link, remote_call}
use rest_rpc.Exchange.Remote.Local.{Call, buf_of, ok_end, remote_calls}
use rest_rpc.Demo.Functions.{Person, StructPack, packer}

-- How the coroutine or the program ends: at its end, by a failed assert, or by an exception.
pub data Ran : Type 0 where
  finished aborted escaped : Ran

-- What is done with a result: whether it is logged and asserted where its code is ok, or asserted
-- alone; the text that a stream makes of it; and the assert's test.
pub record Report : Type 0 where
  pub is_logged : Bool
  pub shown : Datum Person → Text
  pub expected : Datum Person → Bool

-- `assert`, which is nothing where `NDEBUG` is defined.
abbrev pub asserted : Bool → Bool → Streams → Streams × Ran
asserted ndebug holds s = if ndebug || holds then (s, finished) else (s, aborted)

abbrev pub line : Report → Datum Person → List Text
line how d = codes "call result: " ∷ how.shown d ∷ []

-- A value-initialised result is not the one that is asserted.
unfoldable pub report : Bool → Report → CallEnd (Datum Person) → Streams → Streams × Ran
report ndebug how (threw what) s = (s, escaped)
report ndebug how out_of_bounds s = (s, escaped)
report ndebug how (returned ec none) s =
    if how.is_logged then (s, finished) else asserted ndebug false s
report ndebug how (returned ec (some d)) s =
    if how.is_logged
    then (if errc_value ec == errc_value ok
        then asserted ndebug (how.expected d) (log ndebug info (line how d) s)
        else (s, finished))
    else asserted ndebug (how.expected d) s

-- What comes after a report.
go_on : (Streams → Streams × Ran) → Streams × Ran → Streams × Ran
go_on next (s, finished) = next s
go_on next (s, ran) = (s, ran)

first_end : List (CallEnd (Datum Person)) → CallEnd (Datum Person)
first_end [] = out_of_bounds
first_end (r ∷ rs) = r

later_ends : List (CallEnd (Datum Person)) → List (CallEnd (Datum Person))
later_ends [] = []
later_ends (r ∷ rs) = rs

module _ (host : Host) (cross : Bool) (App : Type 0) (pack : StructPack)
    (router : RpcRouter (Session host pipe_transport App)) where
  abbrev pub Reported : Type 0
  Reported = Call host cross App (packer pack) router × Report

  -- The calls of a coroutine, one after the other, each with what is done with its result.
  unfoldable pub rpc_calls : Bool → List Reported → Link host App router → Streams → Streams × Ran
  unfolding go_on
  rpc_calls ndebug [] l s = (s, finished)
  rpc_calls ndebug ((q, how) ∷ qs) l s =
      let r =
        remote_call host App router (unpack (packer pack) q.kind) (key_of q.name)
          (buf_of host cross App (packer pack) router q) l in
      go_on (rpc_calls ndebug qs r.0) (report ndebug how r.1 s)

  abbrev pub calls_of : List Reported → List (Call host cross App (packer pack) router)
  calls_of [] = []
  calls_of ((q, how) ∷ qs) = q ∷ calls_of qs

  -- Whether values are those that the asserts of the calls ask for.
  abbrev pub as_expected : List Reported → List (Datum Person) → Bool
  as_expected [] ds = true
  as_expected (q ∷ qs) [] = false
  as_expected ((q, how) ∷ qs) (d ∷ ds) = how.expected d && as_expected qs ds

  -- The statements that log them.
  abbrev pub logged : List Reported → List (Datum Person) → List (Level × List Text)
  logged [] ds = []
  logged (q ∷ qs) [] = []
  logged ((q, how) ∷ qs) (d ∷ ds) =
      if how.is_logged then (info, line how d) ∷ logged qs ds else logged qs ds

  asserted-true : (ndebug b : Bool) (s : Streams) → b ≡ true → asserted ndebug b s ≡ (s, finished)
  asserted-true true b s h = refl
  asserted-true false b s h = rw h refl

  report-ok :
      (ndebug : Bool) (how : Report) (d : Datum Person) (s : Streams)
      → how.expected d ≡ true
      → report ndebug how (returned ok (some d)) s
        ≡ (if how.is_logged then log ndebug info (line how d) s else s, finished)
  unfolding report errc_value
  report-ok ndebug how d s h = elim (Bool-cases how.is_logged) [
    | inl e ↦ rw e (asserted-true ndebug (how.expected d) (log ndebug info (line how d) s) h)
    | inr e ↦ rw e (asserted-true ndebug (how.expected d) s h)
  ]

  -- Calls that return what is expected are logged, and the coroutine ends.
  pub rpc_calls-logged :
      (ndebug : Bool) (qs : List Reported) (l : Link host App router) (s : Streams)
      (ds : List (Datum Person))
      → (remote_calls host cross App (packer pack) router (calls_of qs) l).0
        ≡ map (ok_end host cross App (packer pack) router) ds
      → as_expected qs ds ≡ true
      → rpc_calls ndebug qs l s ≡ (log_all ndebug (logged qs ds) s, finished)
  unfolding rpc_calls remote_calls log_all go_on first_end later_ends
  rpc_calls-logged ndebug [] l s ds e h = refl
  rpc_calls-logged ndebug (q ∷ qs) l s [] e h = absurd (ground (arith, h))
  rpc_calls-logged ndebug ((q, how) ∷ qs) l s (d ∷ ds) e h =
      let r =
        remote_call host App router (unpack (packer pack) q.kind) (key_of q.name)
          (buf_of host cross App (packer pack) router q) l in
      let first : r.1 ≡ returned ok (some d) = ap first_end e in
      let report_first =
        ap (λ o. report ndebug how o s) first ∙ report-ok ndebug how d s (ground (arith, h)) in
      let s' = if how.is_logged then log ndebug info (line how d) s else s in
      let later = rpc_calls-logged ndebug qs r.0 s' ds (ap later_ends e) (ground (arith, h)) in
      ap (go_on (rpc_calls ndebug qs r.0)) report_first
      ∙ later
      ∙ ap (λ s. (s, finished))
          (elim (Bool-cases how.is_logged) [ inl b ↦ rw b refl | inr b ↦ rw b refl ])

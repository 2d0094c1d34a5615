-- ===== src/Logger/Lines.antt =====
-- What a program's log statements write, for include/rest_rpc/logger.hpp.
use mathlib.Core.List.{append_assoc, append-nil}
use rest_rpc.Base.{
  ◌≡◌, ◌∙◌, ap, ap₂, sym, Bool, true, false, not, if◌then◌else◌, List, [], ◌∷◌, ◌++◌,
}
use rest_rpc.Router.{Text}
use rest_rpc.Logger.{
  Streams, Logger, null_logger, cout_logger, cerr_logger, insert, destroy, Level, error, warning,
  info, debug, trace, logger_of, insert_all, log, log_all,
}

-- The line of a statement.
abbrev pub line_of : List Text → Text
line_of [] = 10 ∷ []
line_of (t ∷ ts) = t ++ line_of ts

-- The lines of the statements of the levels that `wanted` asks for.
abbrev pub lines_of : (Level → Bool) → List (Level × List Text) → Text
lines_of wanted [] = []
lines_of wanted ((level, ts) ∷ rest) =
    (if wanted level then line_of ts else []) ++ lines_of wanted rest

-- The levels that go to each stream of a build.
abbrev pub to_cerr : Bool → Level → Bool
to_cerr ndebug error = true
to_cerr ndebug warning = not ndebug
to_cerr ndebug _ = false

abbrev pub to_cout : Bool → Level → Bool
to_cout ndebug error = false
to_cout ndebug warning = false
to_cout ndebug _ = not ndebug

abbrev appended : Text → Text → Streams → Streams
appended out err s = record { cout = s.cout ++ out; cerr = s.cerr ++ err }

-- What each logger writes of a statement.
abbrev written : Logger → List Text → Streams → Streams
written null_logger ts s = appended [] [] s
written cout_logger ts s = appended (line_of ts) [] s
written cerr_logger ts s = appended [] (line_of ts) s

insert_all-written :
    (l : Logger) (ts : List Text) (s : Streams) → destroy l (insert_all l ts s) ≡ written l ts s
unfolding destroy insert insert_all
insert_all-written null_logger [] s =
    ap₂ (λ out err. record { cout = out; cerr = err }) (sym (append-nil s.cout))
      (sym (append-nil s.cerr))
insert_all-written null_logger (t ∷ ts) s = insert_all-written null_logger ts s
insert_all-written cout_logger [] s =
    ap (λ err. record { cout = s.cout ++ (10 ∷ []); cerr = err }) (sym (append-nil s.cerr))
insert_all-written cout_logger (t ∷ ts) s =
    insert_all-written cout_logger ts (record s { cout = s.cout ++ t })
    ∙ ap (λ out. record { cout = out; cerr = s.cerr ++ [] }) (append_assoc s.cout t (line_of ts))
insert_all-written cerr_logger [] s =
    ap (λ out. record { cout = out; cerr = s.cerr ++ (10 ∷ []) }) (sym (append-nil s.cout))
insert_all-written cerr_logger (t ∷ ts) s =
    insert_all-written cerr_logger ts (record s { cerr = s.cerr ++ t })
    ∙ ap (λ err. record { cout = s.cout ++ []; cerr = err }) (append_assoc s.cerr t (line_of ts))

-- One statement.
log-appended :
    (ndebug : Bool) (level : Level) (ts : List Text) (s : Streams)
    → log ndebug level ts s
      ≡ appended
          (if to_cout ndebug level then line_of ts else [])
          (if to_cerr ndebug level then line_of ts else [])
          s
unfolding log logger_of
log-appended ndebug error ts s = insert_all-written cerr_logger ts s
log-appended true warning ts s = insert_all-written null_logger ts s
log-appended false warning ts s = insert_all-written cerr_logger ts s
log-appended true info ts s = insert_all-written null_logger ts s
log-appended false info ts s = insert_all-written cout_logger ts s
log-appended true debug ts s = insert_all-written null_logger ts s
log-appended false debug ts s = insert_all-written cout_logger ts s
log-appended true trace ts s = insert_all-written null_logger ts s
log-appended false trace ts s = insert_all-written cout_logger ts s

-- A program's log statements append to each of the two streams one line for each statement of the
-- levels that go there, in their order, with the statement's operands and nothing between them: to
-- `std::cerr` the errors and, in a debug build, the warnings, to `std::cout` in a debug build the
-- rest, and nothing else is written. No macro has been defined otherwise.
pub log_all-lines_of :
    (ndebug : Bool) (statements : List (Level × List Text)) (s : Streams)
    → ((log_all ndebug statements s).cout ≡ s.cout ++ lines_of (to_cout ndebug) statements)
      × ((log_all ndebug statements s).cerr ≡ s.cerr ++ lines_of (to_cerr ndebug) statements)
unfolding log_all
log_all-lines_of ndebug [] s = (sym (append-nil s.cout), sym (append-nil s.cerr))
log_all-lines_of ndebug ((level, ts) ∷ rest) s =
    let out = if to_cout ndebug level then line_of ts else [] in
    let err = if to_cerr ndebug level then line_of ts else [] in
    let one = log-appended ndebug level ts s in
    let more = log_all-lines_of ndebug rest (appended out err s) in
    (
      ap (λ s'. (log_all ndebug rest s').cout) one
          ∙ more.0
          ∙ append_assoc s.cout out (lines_of (to_cout ndebug) rest),
      ap (λ s'. (log_all ndebug rest s').cerr) one
          ∙ more.1
          ∙ append_assoc s.cerr err (lines_of (to_cerr ndebug) rest),
    )

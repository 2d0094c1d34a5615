-- ===== src/Logger.antt =====
-- include/rest_rpc/logger.hpp: the loggers and the macros that choose one by the kind of build.
pub mod Lines
mod Examples
use rest_rpc.Base.{Bool, true, false, if◌then◌else◌, List, [], ◌∷◌, ◌++◌}
use rest_rpc.Router.{Text}

-- What has been written to `std::cout` and to `std::cerr`.
pub record Streams : Type 0 where
  pub cout : Text
  pub cerr : Text

pub data Logger : Type 0 where
  null_logger cout_logger cerr_logger : Logger

-- `operator<<`, for the text that a stream makes of its operand.
unfoldable pub insert : Logger → Text → Streams → Streams
insert null_logger t s = s
insert cout_logger t s = record s { cout = s.cout ++ t }
insert cerr_logger t s = record s { cerr = s.cerr ++ t }

-- The destructor of a logger; `std::endl` is a line feed. `NULL_LOGGER` is a constant, and its type has
-- none.
unfoldable pub destroy : Logger → Streams → Streams
destroy null_logger s = s
destroy cout_logger s = record s { cout = s.cout ++ (10 ∷ []) }
destroy cerr_logger s = record s { cerr = s.cerr ++ (10 ∷ []) }

pub data Level : Type 0 where
  error warning info debug trace : Level

-- The macros `REST_LOG_ERROR` to `REST_LOG_TRACE`, where none has been defined before: `ndebug` tells
-- whether `NDEBUG` is.
unfoldable pub logger_of : Bool → Level → Logger
logger_of ndebug error = cerr_logger
logger_of ndebug warning = if ndebug then null_logger else cerr_logger
logger_of ndebug info = if ndebug then null_logger else cout_logger
logger_of ndebug debug = if ndebug then null_logger else cout_logger
logger_of ndebug trace = if ndebug then null_logger else cout_logger

insert_all : Logger → List Text → Streams → Streams
insert_all l [] s = s
insert_all l (t ∷ ts) s = insert_all l ts (insert l t s)

-- A statement: the macro, and its operands from left to right; the logger lives to the end of it.
unfoldable pub log : Bool → Level → List Text → Streams → Streams
unfolding insert_all
log ndebug level ts s = let l = logger_of ndebug level in destroy l (insert_all l ts s)

-- Several statements.
unfoldable pub log_all : Bool → List (Level × List Text) → Streams → Streams
log_all ndebug [] s = s
log_all ndebug ((level, ts) ∷ rest) s = log_all ndebug rest (log ndebug level ts s)

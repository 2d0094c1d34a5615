-- ===== src/Logger/Examples.antt =====
-- Three statements with the macros of include/rest_rpc/logger.hpp, in a release build.
use rest_rpc.Base.{◌≡◌, true, List, [], ◌∷◌, ◌++◌}
use rest_rpc.Base.Text.{codes}
use rest_rpc.Router.{Text}
use rest_rpc.Logger.{Streams, Level, error, warning, info, log_all}
use rest_rpc.Logger.Lines.{log_all-lines_of}

abbrev statements : List (Level × List Text)
statements =
    (info, codes "call result: " ∷ codes "3" ∷ [])
    ∷ (error, codes "resolve " ∷ codes "timeout" ∷ [])
    ∷ (warning, codes "slow" ∷ [])
    ∷ []

abbrev nothing : Streams
nothing = record { cout = []; cerr = [] }

log_all-lines_of_example :
    ((log_all true statements nothing).cout ≡ [])
    × ((log_all true statements nothing).cerr ≡ codes "resolve timeout" ++ (10 ∷ []))
log_all-lines_of_example = log_all-lines_of true statements nothing

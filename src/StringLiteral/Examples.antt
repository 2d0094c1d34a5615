-- ===== src/StringLiteral/Examples.antt =====
-- Literals of include/rest_rpc/md5.hpp that can be looked at.
use rest_rpc.Base.{ℕ, ◌≡◌, List, [], ◌∷◌, ◌++◌}
use rest_rpc.Base.Text.{codes}
use rest_rpc.Base.Views.{same_text}
use rest_rpc.StringLiteral.{literal_of_view, literal_of_array, eq}
use rest_rpc.StringLiteral.Contents.{eq-same_text}

abbrev rest : List ℕ
rest = codes "rest"

abbrev rpc : List ℕ
rpc = codes "rpc"

eq-same_text_example :
    eq (literal_of_array (rest ++ (0 ∷ []))) (literal_of_view 3 (rpc ++ rest)) ≡ same_text rest rpc
eq-same_text_example = eq-same_text rest rpc rest

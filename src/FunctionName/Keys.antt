-- ===== src/FunctionName/Keys.antt =====
-- The names and keys that include/rest_rpc/function_name.h and util.hpp make of a compiler's text.
use mathlib.Core.Option
use rest_rpc.Base.{
  ◌^◌, ◌<◌, ◌≡◌, refl, ap, ◌∙◌, arith, ltb, if◌then◌else◌, List, [], ◌∷◌, ◌++◌, none, some, length,
  length-append, drop,
}
use rest_rpc.Base.Text.{codes}
use rest_rpc.Base.Views.{npos, first_at, last_at, starts_with, find-eq_0, first_at_one-append}
use rest_rpc.Base.Words.{u32}
use rest_rpc.Md5.{md5_hash32}
use rest_rpc.Router.{Text, key_of}
use rest_rpc.FunctionName.{
  Compiler, anonymous_namespace, string_view_array_has, func_style_array, without_style, name_in,
  qualified_name_of_impl, get_func_name, get_key, name_key,
}
use rest_rpc.FunctionName.Cutting.{IsSignature, intermediate-IsSignature, body-lt}
use rest_rpc.FunctionName.Names.{
  parenthesis, declaration, declared_name_plain, declared_name_typed, anonymous_name_plain,
  anonymous_name_typed, named_declared, named_anonymous,
}

-- The calling conventions that a name may begin with, or none of them.
pub data Convention : Type 0 where
  unnamed cdecl clrcall stdcall fastcall thiscall vectorcall : Convention

abbrev pub convention : Convention → Text
convention unnamed = []
convention cdecl = codes "__cdecl "
convention clrcall = codes "__clrcall "
convention stdcall = codes "__stdcall "
convention fastcall = codes "__fastcall "
convention thiscall = codes "__thiscall "
convention vectorcall = codes "__vectorcall "

-- A name that begins with none of them.
abbrev pub IsUnstyled : Text → Type 0
IsUnstyled name = string_view_array_has func_style_array name ≡ []

first_style : List Text → Text → Text
first_style [] value = []
first_style (v ∷ array) value = if starts_with value v then v else first_style array value

string_view_array_has-eq :
    (array : List Text) (value : Text) → string_view_array_has array value ≡ first_style array value
unfolding string_view_array_has first_style
string_view_array_has-eq [] value = refl
string_view_array_has-eq (v ∷ array) value =
    rw (find-eq_0 value v, string_view_array_has-eq array value)

style_found :
    (v : Convention) (name : Text)
    → IsUnstyled name
    → string_view_array_has func_style_array (convention v ++ name) ≡ convention v
unfolding first_style starts_with
style_found unnamed name h = h
style_found cdecl name h = string_view_array_has-eq func_style_array _
style_found clrcall name h = string_view_array_has-eq func_style_array _
style_found stdcall name h = string_view_array_has-eq func_style_array _
style_found fastcall name h = string_view_array_has-eq func_style_array _
style_found thiscall name h = string_view_array_has-eq func_style_array _
style_found vectorcall name h = string_view_array_has-eq func_style_array _

pub without_style-convention :
    (v : Convention) (name : Text) → IsUnstyled name → without_style (convention v ++ name) ≡ name
unfolding without_style
without_style-convention v name h = rw (style_found v name h) (dropped v)
  where
    dropped :
        {name : Text} (v : Convention)
        → (if ltb 0 (length (convention v))
            then drop (length (convention v)) (convention v ++ name)
            else convention v ++ name)
          ≡ name
    dropped unnamed = refl
    dropped cdecl = refl
    dropped clrcall = refl
    dropped stdcall = refl
    dropped fastcall = refl
    dropped thiscall = refl
    dropped vectorcall = refl

no_parenthesis_styled :
    (v : Convention) (name : Text)
    → first_at parenthesis name ≡ none
    → first_at parenthesis (convention v ++ name) ≡ none
unfolding first_at starts_with
no_parenthesis_styled v name h = first_at_one-append 40 (convention v) name (none_in v) h
  where
    none_in : (v : Convention) → first_at parenthesis (convention v) ≡ none
    none_in unnamed = refl
    none_in cdecl = refl
    none_in clrcall = refl
    none_in stdcall = refl
    none_in fastcall = refl
    none_in thiscall = refl
    none_in vectorcall = refl

-- The ways in which compilers spell a function between what they put around it: its name alone; a
-- result's type, a calling convention, the name and the parameters; and either in an anonymous
-- namespace.
pub data IsSpelled (c : Compiler) (name : Text) : Text → Type 0 where
  plain : last_at (anonymous_namespace c) name ≡ none → IsSpelled c name name
  typed :
      (lead args : Text) (v : Convention)
      → last_at (anonymous_namespace c) (declaration lead (convention v ++ name) args) ≡ none
      → first_at (codes "l ") (declaration lead (convention v ++ name) args) ≡ some (length lead)
      → first_at parenthesis lead ≡ none
      → IsSpelled c name (declaration lead (convention v ++ name) args)
  hidden :
      (before : Text)
      → last_at (anonymous_namespace c) (before ++ (anonymous_namespace c ++ name))
        ≡ some (length before)
      → IsSpelled c name (before ++ (anonymous_namespace c ++ name))
  hidden_typed :
      (before args : Text)
      → last_at (anonymous_namespace c) (before ++ (anonymous_namespace c ++ (name ++ (40 ∷ args))))
        ≡ some (length before)
      → IsSpelled c name (before ++ (anonymous_namespace c ++ (name ++ (40 ∷ args))))

named_spelled :
    (c : Compiler) (name body : Text)
    → IsSpelled c name body
    → IsUnstyled name
    → first_at parenthesis name ≡ none
    → length body < npos
    → (q : Text) × (name_in c (some body) ≡ some q) × (without_style q ≡ name)
named_spelled c name _ (plain a) u p fits = (
  name,
  named_declared c name a ∙ declared_name_plain name p,
  without_style-convention unnamed name u,
)
named_spelled c name _ (typed lead args v a l n) u p fits = (
  convention v ++ name,
  named_declared c _ a
      ∙ declared_name_typed lead (convention v ++ name) args l n (no_parenthesis_styled v name p)
          fits,
  without_style-convention v name u,
)
named_spelled c name _ (hidden before a) u p fits = (
  name,
  named_anonymous c before name a fits ∙ anonymous_name_plain name p,
  without_style-convention unnamed name u,
)
named_spelled c name _ (hidden_typed before args a) u p fits = (
  name,
  named_anonymous c before (name ++ (40 ∷ args)) a fits
      ∙ anonymous_name_typed name args p (
          omega (
            arith,
            fits,
            length-append before (anonymous_namespace c ++ (name ++ (40 ∷ args))),
            length-append (anonymous_namespace c) (name ++ (40 ∷ args)),
            length-append name (40 ∷ args),
          )),
  without_style-convention unnamed name u,
)

-- In each of these spellings the function's name is found, whatever the compiler.
pub get_func_name-IsSpelled :
    (c : Compiler) (signature body name : Text)
    → IsSignature c signature body
    → IsSpelled c name body
    → IsUnstyled name
    → first_at parenthesis name ≡ none
    → get_func_name c signature ≡ some name
unfolding get_func_name qualified_name_of_impl
get_func_name-IsSpelled c signature body name w s u p =
    let found = named_spelled c name body s u p (body-lt c signature body w) in
    ap (λ o. Option.map without_style (name_in c o)) (intermediate-IsSignature c signature body w)
    ∙ ap (Option.map without_style) found.1
    ∙ ap some found.2

key_found :
    (c : Compiler) (signature name : Text)
    → get_func_name c signature ≡ some name
    → length name < 2 ^ 32
    → get_key c signature ≡ some (key_of name)
unfolding get_key
key_found c signature name e h =
    let short : u32 (length name) ≡ length name = omega arith in
    ap (Option.map name_key) e ∙ ap (λ n. some (md5_hash32 name n)) short

-- One function, as the client's compiler and the server's write it.
pub record IsShared (c d : Compiler) (at_client at_server name : Text) : Type 0 where
  pub in_client : Text
  pub in_server : Text
  pub client_signature : IsSignature c at_client in_client
  pub server_signature : IsSignature d at_server in_server
  pub client_spelling : IsSpelled c name in_client
  pub server_spelling : IsSpelled d name in_server
  pub unstyled : IsUnstyled name
  pub plain_name : first_at parenthesis name ≡ none
  pub short : length name < 2 ^ 32

pub get_key-IsShared :
    (c d : Compiler) (at_client at_server name : Text)
    → IsShared c d at_client at_server name
    → (get_key c at_client ≡ some (key_of name)) × (get_key d at_server ≡ some (key_of name))
get_key-IsShared c d at_client at_server name w = (
  key_found c at_client name
      (get_func_name-IsSpelled c at_client w.in_client name w.client_signature w.client_spelling
        w.unstyled w.plain_name)
      w.short,
  key_found d at_server name
      (get_func_name-IsSpelled d at_server w.in_server name w.server_signature w.server_spelling
        w.unstyled w.plain_name)
      w.short,
)

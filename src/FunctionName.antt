-- ===== src/FunctionName.antt =====
-- include/rest_rpc/function_name.h and util.hpp: the name of a function, cut at compile time out of
-- the text in which the compiler names the instance of a template, and the key made of it. A `none`
-- is a constant expression that does not compile.
pub mod Cutting
pub mod Names
pub mod Keys
pub mod Registration
mod Examples
use mathlib.Core.Option
use rest_rpc.Base.{
  ℕ, ◌+◌, ◌≡◌, Bool, true, false, ◌==◌, ltb, if◌then◌else◌, List, [], ◌∷◌, Option, none, some,
  length, drop, get_elem?,
}
use rest_rpc.Base.Words.{u32}
use rest_rpc.Base.Text.{codes}
use rest_rpc.Base.Views.{npos, add_size, sub_size, find, rfind, substr}
use rest_rpc.Md5.{md5_hash32}
use rest_rpc.Router.{Text, Invoker, RpcRouter, Result, register_handler, remove_handler}

-- The compilers that the preprocessor tells apart, and what it sets for each.
pub data Compiler : Type 0 where
  msvc clang gcc : Compiler

abbrev pub suffix_size : Compiler → ℕ
suffix_size msvc = 16
suffix_size clang = 1
suffix_size gcc = 1

abbrev pub keyword : Compiler → Text
keyword msvc = codes "rest_rpc::detail::qualified_name_of_impl<"
keyword clang = codes "[Func = "
keyword gcc = codes "Func = "

abbrev pub anonymous_namespace : Compiler → Text
anonymous_namespace msvc = codes "`anonymous-namespace'::"
anonymous_namespace clang = codes "(anonymous namespace)::"
anonymous_namespace gcc = codes "{anonymous}::"

-- `signature[prefix_size] == '&' ? 1 : 0`.
abbrev pub additional_size : ℕ → ℕ
additional_size c = if c == 38 then 1 else 0

trimmed : Compiler → Text → ℕ → Option ℕ → Option Text
trimmed c signature prefix_size none = none
trimmed c signature prefix_size (some first) =
    substr signature (add_size prefix_size (additional_size first)) (
      sub_size (sub_size (sub_size (length signature) prefix_size) (additional_size first))
        (suffix_size c))

-- `intermediate`: the signature without what stands before the function and after it.
unfoldable pub intermediate : Compiler → Text → Option Text
unfolding trimmed
intermediate c signature =
    let prefix_size = add_size (find signature (keyword c)) (length (keyword c)) in
    trimmed c signature prefix_size (get_elem? signature prefix_size)

-- A name in an anonymous namespace, up to the parameters.
unfoldable pub anonymous_name : Option Text → Option Text
anonymous_name none = none
anonymous_name (some str) =
    let right = find str (codes "(") in if right == npos then some str else substr str 0 right

-- Any other name: from the end of the result's type up to the parameters.
unfoldable pub declared_name : Text → Option Text
declared_name result =
    let left = add_size (find result (codes "l ")) 2 in
    let right = find result (codes "(") in
    if left == npos
    then some result
    else if right == npos
    then some result
    else substr result left (sub_size right left)

unfoldable pub name_in : Compiler → Option Text → Option Text
name_in c none = none
name_in c (some result) =
    let rpos = rfind result (anonymous_namespace c) in
    if rpos == npos
    then declared_name result
    else anonymous_name (substr result (add_size rpos (length (anonymous_namespace c))) npos)

unfoldable pub qualified_name_of_impl : Compiler → Text → Option Text
unfolding name_in
qualified_name_of_impl c signature = name_in c (intermediate c signature)

unfoldable pub string_view_array_has : List Text → Text → Text
string_view_array_has [] value = []
string_view_array_has (v ∷ array) value =
    if find value v == 0 then v else string_view_array_has array value

abbrev pub func_style_array : List Text
func_style_array =
    codes "__cdecl "
    ∷ codes "__clrcall "
    ∷ codes "__stdcall "
    ∷ codes "__fastcall "
    ∷ codes "__thiscall "
    ∷ codes "__vectorcall "
    ∷ []

-- `get_func_name`, from the qualified name on.
unfoldable pub without_style : Text → Text
without_style qualified_name =
    let func_style = string_view_array_has func_style_array qualified_name in
    if ltb 0 (length func_style) then drop (length func_style) qualified_name else qualified_name

unfoldable pub get_func_name : Compiler → Text → Option Text
get_func_name c signature = Option.map without_style (qualified_name_of_impl c signature)

abbrev pub name_key : Text → ℕ
name_key name = md5_hash32 name (u32 (length name))

unfoldable pub get_key : Compiler → Text → Option ℕ
get_key c signature = Option.map name_key (get_func_name c signature)

-- `register_handler<func>` and `remove_handler<func>` of include/rest_rpc/rpc_router.hpp, and so of
-- include/rest_rpc/rpc_server.hpp.
module _ {S : Type 0} where
  unfoldable pub register_function :
      Compiler → Text → Invoker S → RpcRouter S → Option (Result (RpcRouter S))
  register_function c signature f r =
      Option.map (λ name. register_handler name f r) (get_func_name c signature)

  unfoldable pub remove_function : Compiler → Text → RpcRouter S → Option (RpcRouter S)
  remove_function c signature r =
      Option.map (λ name. remove_handler name r) (get_func_name c signature)

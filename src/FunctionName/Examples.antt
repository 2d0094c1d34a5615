-- ===== src/FunctionName/Examples.antt =====
-- The names that include/rest_rpc/function_name.h finds in the texts of the three compilers.
use mathlib.Core.Option
use rest_rpc.Base.{ℕ, ◌+◌, ◌^◌, ◌≢◌, ◌⊎◌, List, ◌++◌, Option, none, length}
use rest_rpc.Base.Text.{codes}
use rest_rpc.Router.{Text, Invoker, RpcRouter, returned, empty_router}
use rest_rpc.Router.Registry.{registered}
use rest_rpc.FunctionName.{msvc, keyword}
use rest_rpc.FunctionName.Names.{declaration}
use rest_rpc.FunctionName.Keys.{cdecl, convention}

-- Clang's and Microsoft's texts for a function `bool is_even(int)`.
abbrev clang_is_even : Text
clang_is_even = codes "auto rest_rpc::detail::qualified_name_of_impl() [Func = &is_even]"

abbrev msvc_body : Text
msvc_body = declaration (codes "boo") (convention cdecl ++ codes "is_even") (codes "int)")

abbrev msvc_before : Text
msvc_before = codes "auto __cdecl "

abbrev msvc_after : Text
msvc_after = codes ">(void) noexcept"

abbrev msvc_is_even : Text
msvc_is_even = (msvc_before ++ keyword msvc) ++ (msvc_body ++ msvc_after)

-- GCC's text for an instance of a template with an enumerator.
abbrev gcc_body : Text
gcc_body = codes "pick<(Color)1>"

abbrev gcc_pick : Text
gcc_pick =
    codes "constexpr auto rest_rpc::detail::qualified_name_of_impl() [with auto Func = "
    ++ (gcc_body ++ codes "]")

abbrev echo : Invoker ℕ
echo body ret s = (s + 1, record ret { result = body }, returned)

abbrev serving : RpcRouter ℕ
serving = registered (codes "is_even") echo empty_router

-- ===== src/Julia/Code.antt =====
-- The Julia code that the server pastes (src/julia_wrap.cpp `wrap_julia_code`, `make_activate_code`,
-- `make_revise_code`, `make_test_code`).
pub mod Wrap
use jjmcp.Base.{ℕ, not, ◌&&◌, [], ◌∷◌, ◌++◌, if◌then◌else◌}
use jjmcp.Text.{Bytes, codes, newline, is_empty, ends_with, to_string}
use jjmcp.Julia.Marker.{Marker}
use jjmcp.Julia.Literal.{julia_string_literal}

unfoldable pub wrap_julia_code : Bytes → Marker → ℕ → Bytes
unfolding julia_string_literal to_string ends_with
wrap_julia_code code marker timeout_ms =
    let eval_source = if is_empty code then codes "nothing" else code in
    let body =
      if not (is_empty eval_source) && not (ends_with newline eval_source)
      then eval_source ++ newline ∷ []
      else eval_source in
    codes "@JJMCP_COMMAND "
    ++ julia_string_literal marker.id
    ++ codes " "
    ++ to_string timeout_ms
    ++ codes " begin\n"
    ++ body
    ++ codes "end\n"

unfoldable pub make_activate_code : Bytes → Bytes
unfolding julia_string_literal
make_activate_code path = codes "using Pkg\nPkg.activate(" ++ julia_string_literal path ++ codes ")"

unfoldable pub make_revise_code : Bytes
make_revise_code =
    codes "try\n"
    ++ codes "    using Revise\n"
    ++ codes "    Revise.revise()\n"
    ++ codes "    println(\"Revise complete\")\n"
    ++ codes "catch e\n"
    ++ codes "    showerror(stdout, e, catch_backtrace())\n"
    ++ codes "    println()\n"
    ++ codes "end"

unfoldable pub make_test_code : Bytes → Bytes → Bytes → Bytes
unfolding julia_string_literal
make_test_code test_expr file test_item_pattern =
    if not (is_empty test_expr)
    then test_expr
    else if not (is_empty file)
    then codes "include(" ++ julia_string_literal file ++ codes ")"
    else if not (is_empty test_item_pattern)
    then codes "using TestItemRunner\n@run_package_tests filter=ti->occursin("
      ++ julia_string_literal test_item_pattern
      ++ codes ", ti.name)"
    else codes "using Pkg\nPkg.test()"

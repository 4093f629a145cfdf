-- ===== src/Julia/Bootstrap.antt =====
-- The runtime that is pasted once into a Julia process (src/julia_wrap.cpp
-- `make_jjmcp_runtime_bootstrap_code`).
use jjmcp.Base.{List, [], ◌∷◌, ◌++◌}
use jjmcp.Text.{Bytes, codes}
use jjmcp.Julia.Marker.{Marker}
use jjmcp.Julia.Literal.{julia_string_literal}

unfoldable pub emit_inline : Bytes → Bytes
emit_inline m =
    codes "        printstyled(stderr, "
    ++ julia_string_literal m
    ++ codes ", '\\n'; color=:light_black); flush(stderr)\n"

unfoldable pub emit : Bytes → Bytes
emit m = codes "    " ++ emit_inline m

-- The lines are appended in the order of the source.
unfoldable pub concat : List Bytes → Bytes
concat [] = []
concat (line ∷ lines) = line ++ concat lines

unfoldable pub make_jjmcp_runtime_bootstrap_code : Marker → Bytes
unfolding concat emit emit_inline
make_jjmcp_runtime_bootstrap_code marker = concat (
    (codes "begin\n")
    ∷ (codes "    # JJMCP one-time Julia runtime bootstrap for clean @JJMCP_COMMAND evals.\n")
    ∷ (emit_inline marker.begin)
    ∷ (codes "    try\n")
    ∷ (codes "        if !isdefined(Main, :JJMCPRuntime)\n")
    ∷ (codes "            Core.eval(Main, :(module JJMCPRuntime\n")
    ∷ (codes "            end))\n")
    ∷ (codes "        end\n")
    ∷ (codes "        Core.eval(Main.JJMCPRuntime, quote\n")
    ∷ (codes "            export @JJMCP_COMMAND\n")
    ∷ (codes "            RUNTIME_VERSION = 1\n")
    ∷ (codes
        "            _marker(id::AbstractString, kind::AbstractString) = \"__JJMCP_$(kind)_$(id)__\"\n")
    ∷ (codes "            function _emit_marker(kind::AbstractString, id::AbstractString)\n")
    ∷ (codes
        "                printstyled(stderr, _marker(id, kind), '\\n'; color = :light_black)\n")
    ∷ (codes "                flush(stderr)\n")
    ∷ (codes "            end\n")
    ∷ (codes "            function _unwrap_load_error(e)\n")
    ∷ (codes "                while e isa LoadError\n")
    ∷ (codes "                    e = e.error\n")
    ∷ (codes "                end\n")
    ∷ (codes "                return e\n")
    ∷ (codes "            end\n")
    ∷ (codes "            function _eval_body(mod::Module, body)\n")
    ∷ (codes "                if body isa Expr && body.head === :block\n")
    ∷ (codes "                    value = nothing\n")
    ∷ (codes "                    for stmt in body.args\n")
    ∷ (codes "                        stmt isa LineNumberNode && continue\n")
    ∷ (codes "                        value = Core.eval(mod, stmt)\n")
    ∷ (codes "                    end\n")
    ∷ (codes "                    return value\n")
    ∷ (codes "                end\n")
    ∷ (codes "                return Core.eval(mod, body)\n")
    ∷ (codes "            end\n")
    ∷ (codes
        "            function run_command(marker_id::AbstractString, timeout_ms::Integer, body, mod::Module)\n")
    ∷ (codes "                result = nothing\n")
    ∷ (codes "                _emit_marker(\"BEGIN\", marker_id)\n")
    ∷ (codes "                try\n")
    ∷ (codes "                    result = _eval_body(mod, body)\n")
    ∷ (codes "                    _emit_marker(\"OUT_END\", marker_id)\n")
    ∷ (codes "                    if !isnothing(result)\n")
    ∷ (codes "                        show(stdout, MIME(\"text/plain\"), result)\n")
    ∷ (codes "                        println()\n")
    ∷ (codes "                        flush(stdout)\n")
    ∷ (codes "                    end\n")
    ∷ (codes "                    _emit_marker(\"VAL_END\", marker_id)\n")
    ∷ (codes "                catch e\n")
    ∷ (codes "                    _emit_marker(\"ERROR\", marker_id)\n")
    ∷ (codes "                    err = _unwrap_load_error(e)\n")
    ∷ (codes "                    showerror(stdout, err)\n")
    ∷ (codes "                    println()\n")
    ∷ (codes "                    flush(stdout)\n")
    ∷ (codes "                    _emit_marker(\"BT\", marker_id)\n")
    ∷ (codes "                    Base.show_backtrace(stdout, catch_backtrace())\n")
    ∷ (codes "                    println()\n")
    ∷ (codes "                    flush(stdout)\n")
    ∷ (codes "                finally\n")
    ∷ (codes "                    _emit_marker(\"END\", marker_id)\n")
    ∷ (codes "                end\n")
    ∷ (codes "                return nothing\n")
    ∷ (codes "            end\n")
    ∷ (codes "            macro JJMCP_COMMAND(marker_id, timeout_ms, body)\n")
    ∷ (codes
        "                return :(Main.JJMCPRuntime.run_command($(esc(marker_id)), $(esc(timeout_ms)), $(QuoteNode(body)), $(QuoteNode(__module__))))\n")
    ∷ (codes "            end\n")
    ∷ (codes "        end)\n")
    ∷ (codes "        Core.eval(Main, :(using .JJMCPRuntime: @JJMCP_COMMAND))\n")
    ∷ (emit marker.out_end)
    ∷ (emit marker.val_end)
    ∷ (codes "    catch e\n")
    ∷ (emit marker.error)
    ∷ (codes "        err = e\n")
    ∷ (codes "        while err isa LoadError\n")
    ∷ (codes "            err = err.error\n")
    ∷ (codes "        end\n")
    ∷ (codes "        showerror(stdout, err)\n")
    ∷ (codes "        println()\n")
    ∷ (codes "        flush(stdout)\n")
    ∷ (emit marker.bt)
    ∷ (codes "        Base.show_backtrace(stdout, catch_backtrace())\n")
    ∷ (codes "        println()\n")
    ∷ (codes "        flush(stdout)\n")
    ∷ (codes "    finally\n")
    ∷ (emit marker.end)
    ∷ (codes "    end\n")
    ∷ (codes "    nothing\n")
    ∷ (codes "end\n")
    ∷ [])

-- ===== src/Tests/Tools.antt =====
-- The tools at concrete inputs (src/tools.cpp, src/state.cpp).
use jjmcp.Base.{◌≡◌, ◌⊎◌, refl, true, false, [], ◌∷◌, ◌++◌, none, some, arith}
use jjmcp.Text.{Bytes, codes, ◌=ᵇ◌, to_string, digits}
use jjmcp.Process.{success}
use jjmcp.Json.{pos}
use jjmcp.State.{path_join}
use jjmcp.State.Config.{missing, config_json, save_config, load_config, load-save_config}
use jjmcp.Tools.Lock.{lock_content, is_stale, read_pid, read_signed, skip_spaces, leading_number}
use jjmcp.Tools.Arguments.{IsTaken, integer_at, optional_int, optional_int_lem}
use jjmcp.Tools.Resources.{
  resource_scheme, resource_catalog, project_root_of, existing, contents_json, read_text_file,
  read_resource,
}
use jjmcp.Tools.Resources.Listed.{InList, Reads, read_resource_lem}
use jjmcp.Tools.Evaluate.{eval_code}
use jjmcp.Tools.Evaluate.Locked.{eval_code_excluded, eval_code_releases}
use jjmcp.Tools.Dispatch.{eval_tool, dispatch_tool}
use jjmcp.Tools.Dispatch.Unbound.{IsRefusal, Spared, unbound_refused}
use jjmcp.Tests.Values.{Value, string, values, object, members, integer}
use jjmcp.Tests.Hosts.{host, host-IsQuiet, Untouched, state, pane, dispatcher}

-- The lock of a process that lives.
abbrev theirs : Bytes
theirs = lock_content 9 (codes "1")

eval_code_excluded_example :
    Untouched
      (eval_code host values 1100000
        (codes "1 + 1")
        10000
        2000
        false
        false
        (codes "auto")
        (dispatcher (some pane) (some theirs))).1.outside
    × ((eval_code host values 1100000
          (codes "1 + 1")
          10000
          2000
          false
          false
          (codes "auto")
          (dispatcher (some pane) (some theirs))).1.lock_file
        ≡ some theirs)
unfolding is_stale read_pid read_signed skip_spaces leading_number lock_content to_string digits
eval_code_excluded_example =
    eval_code_excluded host values Untouched theirs 1100000 (codes "1 + 1") 10000 2000 false false
      (codes "auto") (dispatcher (some pane) (some theirs)) host-IsQuiet (λ w. refl) refl refl

eval_code_releases_example :
    ((eval_code host values 1100000
        (codes "1 + 1")
        10000
        2000
        false
        false
        (codes "auto")
        (dispatcher (some pane) none)).1.lock_file
      ≡ none)
    ⊎ ((eval_code host values 1100000
          (codes "1 + 1")
          10000
          2000
          false
          false
          (codes "auto")
          (dispatcher (some pane) none)).1.lock_file
        ≡ none)
eval_code_releases_example =
    eval_code_releases host values 1100000 (codes "1 + 1") 10000 2000 false false (codes "auto")
      (dispatcher (some pane) none)

abbrev arguments : Value
arguments = object (members ((codes "lines", integer (pos 50)) ∷ []))

optional_int_lem_example :
    IsTaken
      (integer_at values arguments (codes "lines"))
      200
      1
      50000
      (optional_int values arguments (codes "lines") 200 1 50000)
optional_int_lem_example =
    optional_int_lem values arguments (codes "lines") 200 1 50000 (omega arith)

-- An evaluation whose code is checked first.
abbrev eval_arguments : Value
eval_arguments = object (members ((codes "code", string (codes "1 + 1")) ∷ []))

unbound_refused_example :
    IsRefusal
      (Spared host values 1100000 false
        (codes "/home")
        (λ path. path)
        (λ s w. (success tt, w))
        (λ code w. (success tt, w))
        eval_tool
        eval_arguments
        (0, 0))
      none
      (dispatch_tool host values 1100000 false
        (codes "/home")
        (λ path. path)
        (λ s w. (success tt, w))
        (λ code w. (success tt, w))
        eval_tool
        (codes "jjmcp_eval")
        eval_arguments
        (dispatcher none none))
unbound_refused_example =
    unbound_refused host values 1100000 false (codes "/home") (λ path. path)
      (λ s w. (success tt, w)) (λ code w. (success tt, w)) eval_tool (codes "jjmcp_eval")
      eval_arguments (dispatcher none none) refl refl

load-save_config_example :
    ((save_config values (λ doc. codes "{}") (success tt) true (state (some pane)) missing).0
      ≡ success tt)
    × (load_config values
          (λ text. success (config_json values pane))
          (save_config values (λ doc. codes "{}") (success tt) true (state (some pane)) missing).1
          (state none)
        ≡ (success tt, record (state none) { binding = some pane }))
load-save_config_example =
    load-save_config values (λ text. success (config_json values pane)) (λ doc. codes "{}") pane
      (state (some pane)) (state none) missing refl refl refl

-- Only the project file is there.
read_resource_lem_example :
    ((uri : Bytes) (contents : Value)
      → read_resource values
          (λ path. path =ᵇ codes "/home/p/Project.toml")
          (λ path. some (codes "name"))
          uri
          (state (some pane))
        ≡ success contents
      → Reads values
          (λ path. path =ᵇ codes "/home/p/Project.toml")
          (λ path. some (codes "name"))
          uri
          (state (some pane))
          contents)
    × ((root filename : Bytes)
        → project_root_of (state (some pane)) ≡ some root
        → InList filename
            (existing values (λ path. path =ᵇ codes "/home/p/Project.toml") root resource_catalog)
        → read_resource values
            (λ path. path =ᵇ codes "/home/p/Project.toml")
            (λ path. some (codes "name"))
            (resource_scheme ++ filename)
            (state (some pane))
          ≡ success (
              contents_json values
                (resource_scheme ++ filename)
                (read_text_file (λ path. some (codes "name")) (path_join root filename))))
read_resource_lem_example =
    read_resource_lem values (λ path. path =ᵇ codes "/home/p/Project.toml")
      (λ path. some (codes "name")) (state (some pane))

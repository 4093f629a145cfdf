-- ===== src/State/Config.antt =====
-- The binding in the config file (`load_config` and `save_config` of src/state.cpp). The file is
-- given by what opening it gives, and the JSON text by the parameters `parse` and `dump`; what is
-- written is taken to arrive, since the code does not test for it.
use jjmcp.Base.{
  ◌≡◌, refl, Bool, true, false, not, List, [], ◌∷◌, ◌++◌, Option, none, some, if◌then◌else◌,
}
use jjmcp.Text.{Bytes, codes, newline, is_empty, ◌=ᵇ◌}
use jjmcp.Process.{Result, success, failure, ◌>>=◌}
use jjmcp.Json.{Json, lookup, value_string}
use jjmcp.State.{Binding, ServerState}

-- The config file as the stream sees it: it does not exist, it does not open, or its content.
pub data File : Type 0 where
  missing unreadable : File
  content : Bytes → File

module _ (json : Json) where
  open json use {Value, string, object, is_object, find}

  -- `b.value("target", "")` and the others, each of which may throw.
  unfoldable pub binding_of : Value → Result Binding
  binding_of b = do
    target ← value_string json b (codes "target") []
    pane_id ← value_string json b (codes "pane_id") []
    project_root ← value_string json b (codes "project_root") []
    bound_at ← value_string json b (codes "bound_at") []
    success (record {
      target = target;
      pane_id = pane_id;
      project_root = project_root;
      bound_at = bound_at;
    })

  unfoldable pub take_binding : Binding → ServerState → ServerState
  take_binding binding state =
      if not (is_empty binding.pane_id) then record state { binding = some binding } else state

  -- What stands in the `try` block; `none` where there is no binding.
  unfoldable pub read_doc : Value → Result (Option Binding)
  read_doc doc = elim (find doc (codes "binding")) [
    | none ↦ success none
    | some b ↦
        if is_object b then (binding_of b >>= λ binding. success (some binding)) else success none
  ]

  unfoldable pub loaded : Result (Option Binding) → ServerState → Result (Unit {0}) × ServerState
  loaded (failure what) state = (failure (codes "could not parse config file: " ++ what), state)
  loaded (success none) state = (success tt, state)
  loaded (success (some binding)) state = (success tt, take_binding binding state)

  unfoldable pub load_config :
      (Bytes → Result Value) → File → ServerState → Result (Unit {0}) × ServerState
  load_config parse missing state = (success tt, state)
  load_config parse unreadable state =
      (failure (codes "could not open config file: " ++ state.config_path), state)
  load_config parse (content text) state = loaded (parse text >>= read_doc) state

  unfoldable pub binding_json : Binding → Value
  binding_json b = object (
      (codes "target", string b.target)
      ∷ (codes "pane_id", string b.pane_id)
      ∷ (codes "project_root", string b.project_root)
      ∷ (codes "bound_at", string b.bound_at)
      ∷ [])

  unfoldable pub config_json : Binding → Value
  config_json b = object ((codes "binding", binding_json b) ∷ [])

  -- The directory is made, or the message of the error; the file opens for writing or not. The file
  -- behind the call.
  unfoldable pub save_config :
      (Value → Bytes) → Result (Unit {0}) → Bool → ServerState → File → Result (Unit {0}) × File
  save_config dump directory opens state file = elim state.binding [
    | none ↦ (success tt, file)
    | some binding ↦ elim directory [
      | failure what ↦ (failure (codes "could not create config directory: " ++ what), file)
      | success made ↦
          if opens
          then (success tt, content (dump (config_json binding) ++ newline ∷ []))
          else (failure (codes "could not write config file: " ++ state.config_path), file)
    ]
  ]

  -- A member of a binding that was written.
  value_string-string :
      (m : List (Bytes × Value)) (key s : Bytes)
      → lookup key m ≡ some (string s)
      → value_string json (object m) key [] ≡ success s
  unfolding value_string
  value_string-string m key s h =
      rw (value_string, json.find-object m key, h, json.as_string-string s) refl

  binding_of-binding_json : (b : Binding) → binding_of (binding_json b) ≡ success b
  unfolding binding_of binding_json lookup ◌=ᵇ◌
  binding_of-binding_json b =
      let m : List (Bytes × Value) =
        (codes "target", string b.target)
        ∷ (codes "pane_id", string b.pane_id)
        ∷ (codes "project_root", string b.project_root)
        ∷ (codes "bound_at", string b.bound_at)
        ∷ [] in
      rw
        (
          binding_of,
          value_string-string m (codes "target") b.target refl,
          value_string-string m (codes "pane_id") b.pane_id refl,
          value_string-string m (codes "project_root") b.project_root refl,
          value_string-string m (codes "bound_at") b.bound_at refl,
        )
        refl

  read_doc-config_json : (b : Binding) → read_doc (config_json b) ≡ success (some b)
  unfolding read_doc config_json binding_json lookup ◌=ᵇ◌
  read_doc-config_json b =
      rw
        (
          read_doc,
          json.find-object ((codes "binding", binding_json b) ∷ []) (codes "binding"),
          json.is_object-object,
          binding_of-binding_json b,
        )
        refl

  -- A binding that is saved is loaded again, if it names a pane and the JSON text is parsed as it was
  -- dumped.
  pub load-save_config :
      (parse : Bytes → Result Value) (dump : Value → Bytes) (binding : Binding)
      (saving loading : ServerState) (before : File)
      → parse (dump (config_json binding) ++ newline ∷ []) ≡ success (config_json binding)
      → is_empty binding.pane_id ≡ false
      → saving.binding ≡ some binding
      → (save_config dump (success tt) true saving before).0 ≡ success tt
        × (load_config parse (save_config dump (success tt) true saving before).1 loading
            ≡ (success tt, record loading { binding = some binding }))
  unfolding save_config load_config loaded take_binding
  load-save_config parse dump binding saving loading before parses named bound =
      rw (bound, parses, read_doc-config_json binding, loaded, named) (refl, refl)

-- ===== src/Mcp/Silent.antt =====
-- What is not answered, and what leaves the tools alone (src/mcp.cpp, `needs_worker` of src/main.cpp).
use jjmcp.Base.{
  ◌≡◌, refl, sym, Bool, true, false, not, List, [], ◌∷◌, ◌++◌, append-nil, Option, none, some, inl,
  inr, Bool-cases, if◌then◌else◌, arith,
}
use mathlib.Core.Bool.{false≢true}
use jjmcp.Text.{Bytes, codes, ◌=ᵇ◌}
use jjmcp.Process.{Result, success, failure}
use jjmcp.Json.{Json, string_at, value_string}
use jjmcp.Mcp.{
  initialized, Method, method_named, Tools, Answer, request_id_or_null, has_id, is_notification,
  invalid_request, tools_changed, dispatch_method, dispatch_valid, dispatch_object,
  dispatch_mcp_request, frames_of, handle_request, keep_silent, respond, needs_worker,
  method_or_empty,
}

-- The methods that reach the tools.
abbrev reaches_tools : Method → Bool
reaches_tools Method.initialize = false
reaches_tools Method.ping = false
reaches_tools Method.unknown = false
reaches_tools Method.list_tools = true
reaches_tools Method.list_resources = true
reaches_tools Method.read_resource = true
reaches_tools Method.call_tool = true

needs_worker-method_named :
    (method : Bytes) → needs_worker method ≡ false → reaches_tools (method_named method) ≡ false
unfolding needs_worker method_named
needs_worker-method_named method h = ground arith

pair_eq : {A B : Type 0} {a a' : A} {b b' : B} → a ≡ a' → b ≡ b' → ◌≡◌ {A = A × B} (a, b) (a', b')
pair_eq p q = rw (p, q) refl

module _ (json : Json) (tools : Tools json.Value) where
  open json use {Value, is_object, find}

  is_notification_lem :
      (request : Value)
      → is_object request ≡ true
      → find request (codes "id") ≡ none
      → is_notification json request ≡ true
  unfolding is_notification has_id
  is_notification_lem request object no_id = rw (object, no_id, has_id) refl

  valid_silent :
      (id : Value) (method : Bytes) (request : Value) (s : tools.State)
      → is_notification json request ≡ true
      → dispatch_valid json tools id method request s
        ≡ keep_silent json tools (if method =ᵇ initialized then tools_changed json ∷ [] else []) s
  unfolding dispatch_valid
  valid_silent id method request s h = elim (Bool-cases (method =ᵇ initialized)) [
    | inl e ↦ rw e refl
    | inr e ↦ rw (e, h) refl
  ]

  object_silent :
      (id : Value) (method : Bytes) (request : Value) (s : tools.State)
      → value_string json request (codes "jsonrpc") [] ≡ success (codes "2.0")
      → string_at json request (codes "method") ≡ some method
      → dispatch_object json tools id request s ≡ dispatch_valid json tools id method request s
  unfolding dispatch_object ◌=ᵇ◌
  object_silent id method request s version named = rw (version, named, dispatch_object) refl

  -- A notification, whatever its method, runs no tool and is not answered; only the one that follows
  -- the handshake writes a frame, the notice that the tools have changed.
  pub notification_silent :
      (request : Value) (method : Bytes) (s : tools.State)
      → is_object request ≡ true
      → find request (codes "id") ≡ none
      → value_string json request (codes "jsonrpc") [] ≡ success (codes "2.0")
      → string_at json request (codes "method") ≡ some method
      → handle_request json tools request s
        ≡ (if method =ᵇ initialized then tools_changed json ∷ [] else [], s)
  unfolding handle_request dispatch_mcp_request frames_of
  notification_silent request method s object no_id version named =
      let id = request_id_or_null json request in
      let notification : is_notification json request ≡ true =
        is_notification_lem request object no_id in
      rw
        (
          object,
          object_silent id method request s version named,
          valid_silent id method request s notification,
        )
        (pair_eq (append-nil _) refl)

  -- The frames do not depend on the tools, and these stay as they are.
  abbrev IsApart : Value → (tools.State → Answer json tools) → Type 0
  IsApart request f =
      (frames : List Value) × ((s : tools.State)
        → ((f s).notices ++ frames_of json tools request (f s).response ≡ frames)
          × ((f s).tools ≡ s))

  dispatch_method-IsApart :
      (id : Value) (method : Method) (request : Value)
      → reaches_tools method ≡ false
      → IsApart request (dispatch_method json tools id method request)
  unfolding dispatch_method frames_of
  dispatch_method-IsApart id Method.initialize request h = (_, λ s. (refl, refl))
  dispatch_method-IsApart id Method.ping request h = (_, λ s. (refl, refl))
  dispatch_method-IsApart id Method.unknown request h = (_, λ s. (refl, refl))
  dispatch_method-IsApart id Method.list_tools request h = absurd (false≢true (sym h))
  dispatch_method-IsApart id Method.list_resources request h = absurd (false≢true (sym h))
  dispatch_method-IsApart id Method.read_resource request h = absurd (false≢true (sym h))
  dispatch_method-IsApart id Method.call_tool request h = absurd (false≢true (sym h))

  dispatch_valid-IsApart :
      (id : Value) (method : Bytes) (request : Value)
      → needs_worker method ≡ false
      → IsApart request (dispatch_valid json tools id method request)
  unfolding dispatch_valid frames_of
  dispatch_valid-IsApart id method request h = elim (Bool-cases (method =ᵇ initialized)) [
    | inl e ↦ rw e (tools_changed json ∷ [], λ s. (refl, refl))
    | inr e ↦ elim (Bool-cases (is_notification json request)) [
      | inl n ↦ rw (e, n) ([], λ s. (refl, refl))
      | inr n ↦
          rw (e, n)
            (dispatch_method-IsApart id (method_named method) request
              (needs_worker-method_named method h))
    ]
  ]

  dispatch_object-IsApart :
      (id request : Value)
      → (m : Option Bytes) → string_at json request (codes "method") ≡ m
      → needs_worker (elim m [ none ↦ [] | some method ↦ method ]) ≡ false
      → IsApart request (dispatch_object json tools id request)
  unfolding dispatch_object frames_of
  dispatch_object-IsApart id request m named h =
      go (value_string json request (codes "jsonrpc") []) m named h
    where
      method_apart :
          (m : Option Bytes)
          → needs_worker (elim m [ none ↦ [] | some method ↦ method ]) ≡ false
          → IsApart request (λ s. elim m as (λ _. Answer json tools) [
            | none ↦ respond json tools (invalid_request json id) s
            | some method ↦ dispatch_valid json tools id method request s
          ])
      method_apart none h = (_, λ s. (refl, refl))
      method_apart (some method) h = dispatch_valid-IsApart id method request h

      go :
          (version : Result Bytes) (m : Option Bytes)
          → string_at json request (codes "method") ≡ m
          → needs_worker (elim m [ none ↦ [] | some method ↦ method ]) ≡ false
          → IsApart request (λ s. elim version as (λ _. Answer json tools) [
            | failure what ↦ record { notices = []; response = failure what; tools = s }
            | success v ↦
                if not (v =ᵇ codes "2.0")
                then respond json tools (invalid_request json id) s
                else elim (string_at json request (codes "method")) as (λ _. Answer json tools) [
                  | none ↦ respond json tools (invalid_request json id) s
                  | some method ↦ dispatch_valid json tools id method request s
                ]
          ])
      go (failure what) m named h = (_, λ s. (refl, refl))
      go (success v) m named h = elim (Bool-cases (v =ᵇ codes "2.0")) [
        | inl e ↦ rw (e, named) (method_apart m h)
        | inr e ↦ rw e (_, λ s. (refl, refl))
      ]

  -- A request that the read thread handles itself neither reads nor changes the tools: it writes the
  -- same frames in every state of them.
  pub inline_apart :
      (request : Value)
      → needs_worker (method_or_empty json request) ≡ false
      → (frames : List Value) × ((s : tools.State)
          → handle_request json tools request s ≡ (frames, s))
  unfolding handle_request dispatch_mcp_request frames_of method_or_empty needs_worker
  inline_apart request h = elim (Bool-cases (is_object request)) [
    | inl e ↦
        let id = request_id_or_null json request in
        let m = string_at json request (codes "method") in
        let quiet : needs_worker (elim m [ none ↦ [] | some method ↦ method ]) ≡ false =
          rw (e, method_or_empty) at h in
        let (frames, apart) = dispatch_object-IsApart id request m refl quiet in
        (frames, λ s. rw e (pair_eq (apart s).0 (apart s).1))
    | inr e ↦ (invalid_request json (request_id_or_null json request) ∷ [], λ s. rw e refl)
  ]

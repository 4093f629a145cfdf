-- ===== src/Mcp.antt =====
-- The Model Context Protocol over JSON-RPC (src/mcp.hpp, src/mcp.cpp, and `handle_request` of
-- src/main.cpp). The tools are an interface: a state, and what each call does to it.
pub mod Answers
pub mod Silent
use jjmcp.Base.{
  Bool, true, false, not, ◌&&◌, ◌||◌, List, [], ◌∷◌, ◌++◌, Option, none, some, ◌≡◌, if◌then◌else◌,
}
use jjmcp.Text.{Bytes, codes, carriage_return, is_empty, ends_with, pop_back, ◌=ᵇ◌}
use jjmcp.Process.{Result, success, failure}
use jjmcp.Json.{Json, ℤ, pos, negsuc, lookup, string_at, value_string}

pub record ReadMessage : Type 0 where
  pub eof : Bool
  pub body : Bytes

-- The input is the lines that `std::getline` gives. The message, and the lines behind it.
unfoldable pub read_mcp_message : List Bytes → ReadMessage × List Bytes
read_mcp_message [] = (record { eof = true; body = [] }, [])
read_mcp_message (line ∷ input) =
    let line' = if ends_with carriage_return line then pop_back line else line in
    let more = read_mcp_message input in
    if is_empty line' then more else (record { eof = false; body = line' }, input)

-- How a tool call ends: with a result, or by an exception with or without a message.
pub data Called (V : Type 0) : Type 0 where
  gave : (is_error : Bool) (text : Bytes) (structured : V) → Called V
  threw : Bytes → Called V
  threw_unknown : Called V

-- What the server asks of the tool dispatcher. A call is handed the progress token, and gives the
-- frames that it emits.
pub record Tools (V : Type 0) : Type 1 where
  pub State : Type 0
  pub list_tools_json : State → V
  pub list_resources_json : State → V
  pub read_resource : Bytes → State → Result V × State
  pub call : Bytes → V → V → State → Called V × List V × State

-- What a request leads to: the frames written on the way, the response if there is one, and the
-- tools behind it; or an exception.
pub record Dispatched (V : Type 0) (S : Type 0) : Type 0 where
  pub notices : List V
  pub response : Result (Option V)
  pub tools : S

-- The tests on the name of the method, in their order.
pub data Method : Type 0 where
  initialize ping list_tools list_resources read_resource call_tool unknown : Method

unfoldable pub method_named : Bytes → Method
method_named method =
    if method =ᵇ codes "initialize"
    then Method.initialize
    else if method =ᵇ codes "ping"
    then Method.ping
    else if method =ᵇ codes "tools/list"
    then Method.list_tools
    else if method =ᵇ codes "resources/list"
    then Method.list_resources
    else if method =ᵇ codes "resources/read"
    then Method.read_resource
    else if method =ᵇ codes "tools/call"
    then Method.call_tool
    else Method.unknown

-- The method that a client sends behind its handshake.
abbrev pub initialized : Bytes
initialized = codes "notifications/initialized"

-- The methods that run on the worker thread.
unfoldable pub needs_worker : Bytes → Bool
needs_worker method =
    method =ᵇ codes "tools/call"
    || method =ᵇ codes "tools/list"
    || method =ᵇ codes "resources/list"
    || method =ᵇ codes "resources/read"

module _ (json : Json) where
  open json use {
    Value, null, string, boolean, integer, array, object, is_null, is_object, find, as_string,
  }

  unfoldable pub make_jsonrpc_result : Value → Value → Value
  make_jsonrpc_result id result =
      object
        ((codes "jsonrpc", string (codes "2.0")) ∷ (codes "id", id) ∷ (codes "result", result) ∷ [])

  unfoldable pub make_jsonrpc_error : Value → ℤ → Bytes → Value
  make_jsonrpc_error id code message = object (
      (codes "jsonrpc", string (codes "2.0"))
      ∷ (codes "id", id)
      ∷ (
        codes "error",
        object ((codes "code", integer code) ∷ (codes "message", string message) ∷ []),
      )
      ∷ [])

  unfoldable pub request_id_or_null : Value → Value
  request_id_or_null request =
      if is_object request
      then elim (find request (codes "id")) [ none ↦ null | some id ↦ id ]
      else null

  -- The request has an `id` member.
  unfoldable pub has_id : Value → Bool
  has_id request = elim (find request (codes "id")) [ none ↦ false | some id ↦ true ]

  unfoldable pub is_notification : Value → Bool
  is_notification request = is_object request && not (has_id request)

  -- The method by which the read thread chooses, empty where the request has none.
  unfoldable pub method_or_empty : Value → Bytes
  method_or_empty request =
      if is_object request
      then elim (string_at json request (codes "method")) [ none ↦ [] | some method ↦ method ]
      else []

  unfoldable pub tool_result_json : Bool → Bytes → Value → Value
  tool_result_json is_error text structured = object (
      (
        codes "content",
        array (
            object ((codes "type", string (codes "text")) ∷ (codes "text", string text) ∷ []) ∷ []),
      )
      ∷ ((if is_error then (codes "isError", boolean true) ∷ [] else [])
          ++ (if not (is_null structured)
              then (codes "structuredContent", structured) ∷ []
              else [])))

  abbrev pub invalid_request : Value → Value
  invalid_request id = make_jsonrpc_error id (negsuc 32599) (codes "Invalid Request")

  abbrev pub tools_changed : Value
  tools_changed = object (
      (codes "jsonrpc", string (codes "2.0"))
      ∷ (codes "method", string (codes "notifications/tools/list_changed"))
      ∷ [])

  unfoldable pub initialize_result : Value
  initialize_result = object (
      (codes "protocolVersion", string (codes "2024-11-05"))
      ∷ (
        codes "capabilities",
        object (
            (codes "tools", object ((codes "listChanged", boolean true) ∷ []))
            ∷ (codes "resources", object ((codes "listChanged", boolean false) ∷ []))
            ∷ []),
      )
      ∷ (
        codes "serverInfo",
        object (
            (codes "name", string (codes "JohnJuliaMCP"))
            ∷ (codes "version", string (codes "0.1.0"))
            ∷ []),
      )
      ∷ [])

  -- `contains("params") && ["params"].is_object()`.
  unfoldable pub params_of : Value → Option Value
  params_of request = elim (find request (codes "params")) [
    | none ↦ none
    | some params ↦ if is_object params then some params else none
  ]

  -- The arguments of a call: none given is the empty object, and `none` stands for no object.
  unfoldable pub arguments_of : Value → Option Value
  arguments_of params = elim (find params (codes "arguments")) [
    | none ↦ some (object [])
    | some arguments ↦ if is_object arguments then some arguments else none
  ]

  unfoldable pub progress_token : Value → Value
  progress_token params = elim (find params (codes "_meta")) [
    | none ↦ null
    | some meta ↦
        if is_object meta
        then elim (find meta (codes "progressToken")) [ none ↦ null | some token ↦ token ]
        else null
  ]

  module _ (tools : Tools Value) where
    abbrev pub Answer : Type 0
    Answer = Dispatched Value tools.State

    abbrev pub respond : Value → tools.State → Answer
    respond response s = record { notices = []; response = success (some response); tools = s }

    abbrev pub keep_silent : List Value → tools.State → Answer
    keep_silent notices s = record { notices = notices; response = success none; tools = s }

    unfoldable pub call_response : Value → Called Value → Value
    call_response id (gave is_error text structured) =
        make_jsonrpc_result id (tool_result_json is_error text structured)
    call_response id (threw what) =
        make_jsonrpc_error id (negsuc 32602) (codes "tool call failed: " ++ what)
    call_response id threw_unknown =
        make_jsonrpc_error id (negsuc 32602) (codes "tool call failed with an unknown exception")

    unfoldable pub tools_call : Value → Value → tools.State → Answer
    tools_call id request s = elim (params_of request) [
      | none ↦
          respond
            (make_jsonrpc_error id (negsuc 32601) (codes "tools/call params must be an object")) s
      | some params ↦ elim (string_at json params (codes "name")) [
        | none ↦
            respond
              (make_jsonrpc_error id (negsuc 32601)
                (codes "tools/call params.name must be a string"))
              s
        | some name ↦ elim (arguments_of params) [
          | none ↦
              respond
                (make_jsonrpc_error id (negsuc 32601)
                  (codes "tools/call params.arguments must be an object"))
                s
          | some arguments ↦
              let (called, frames, s') = tools.call name arguments (progress_token params) s in
              record {
                notices = frames;
                response = success (some (call_response id called));
                tools = s';
              }
        ]
      ]
    ]

    unfoldable pub resource_response : Value → Result Value → Value
    resource_response id (success contents) = make_jsonrpc_result id contents
    resource_response id (failure e) = make_jsonrpc_error id (negsuc 32001) e

    unfoldable pub resources_read : Value → Value → tools.State → Answer
    resources_read id request s = elim (params_of request) [
      | none ↦
          respond
            (make_jsonrpc_error id (negsuc 32601) (codes "resources/read params must be an object"))
            s
      | some params ↦ elim (string_at json params (codes "uri")) [
        | none ↦
            respond
              (make_jsonrpc_error id (negsuc 32601)
                (codes "resources/read params.uri must be a string"))
              s
        | some uri ↦
            let (contents, s') = tools.read_resource uri s in
            respond (resource_response id contents) s'
      ]
    ]

    -- The methods of a request that is no notification.
    unfoldable pub dispatch_method : Value → Method → Value → tools.State → Answer
    dispatch_method id Method.initialize request s =
        respond (make_jsonrpc_result id initialize_result) s
    dispatch_method id Method.ping request s = respond (make_jsonrpc_result id (object [])) s
    dispatch_method id Method.list_tools request s =
        respond (make_jsonrpc_result id (object ((codes "tools", tools.list_tools_json s) ∷ []))) s
    dispatch_method id Method.list_resources request s =
        respond
          (make_jsonrpc_result id (object ((codes "resources", tools.list_resources_json s) ∷ [])))
          s
    dispatch_method id Method.read_resource request s = resources_read id request s
    dispatch_method id Method.call_tool request s = tools_call id request s
    dispatch_method id Method.unknown request s =
        respond (make_jsonrpc_error id (negsuc 32600) (codes "Method not found")) s

    unfoldable pub dispatch_valid : Value → Bytes → Value → tools.State → Answer
    dispatch_valid id method request s =
        if method =ᵇ initialized
        then keep_silent (tools_changed ∷ []) s
        else if is_notification request
        then keep_silent [] s
        else dispatch_method id (method_named method) request s

    -- The version is read, which throws where it is no string; then the method.
    unfoldable pub dispatch_object : Value → Value → tools.State → Answer
    dispatch_object id request s = elim (value_string json request (codes "jsonrpc") []) [
      | failure what ↦ record { notices = []; response = failure what; tools = s }
      | success version ↦
          if not (version =ᵇ codes "2.0")
          then respond (invalid_request id) s
          else elim (string_at json request (codes "method")) [
            | none ↦ respond (invalid_request id) s
            | some method ↦ dispatch_valid id method request s
          ]
    ]

    unfoldable pub dispatch_mcp_request : Value → tools.State → Answer
    dispatch_mcp_request request s =
        let id = request_id_or_null request in
        if is_object request then dispatch_object id request s else respond (invalid_request id) s

    -- The frames that a request writes, and the tools behind it. The id of the error for an exception
    -- is the member `id`, where `contains` finds one.
    unfoldable pub error_id : Value → Value
    error_id request = elim (find request (codes "id")) [ none ↦ null | some id ↦ id ]

    unfoldable pub frames_of : Value → Result (Option Value) → List Value
    frames_of request (failure what) =
        make_jsonrpc_error (error_id request) (negsuc 32602) (codes "internal error: " ++ what) ∷ []
    frames_of request (success none) = []
    frames_of request (success (some response)) = response ∷ []

    unfoldable pub handle_request : Value → tools.State → List Value × tools.State
    handle_request request s =
        let answer = dispatch_mcp_request request s in
        (answer.notices ++ frames_of request answer.response, answer.tools)

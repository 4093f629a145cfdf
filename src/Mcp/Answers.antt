-- ===== src/Mcp/Answers.antt =====
-- Which requests are answered, and under which id (src/mcp.cpp `dispatch_mcp_request`).
use jjmcp.Base.{◌≡◌, [], ◌∷◌, some}
use jjmcp.Text.{codes}
use jjmcp.Json.{Json}
use jjmcp.Mcp.{Tools, Dispatched, frames_of}

module _ (json : Json) (tools : Tools json.Value) where
  open json use {Value, is_object, find}

  -- One response, under the id.
  abbrev pub IsAnswered : Value → Value → Dispatched Value tools.State → Type 0
  IsAnswered request id a =
      (response : Value) × (frames_of json tools request a.response ≡ response ∷ [])
      × (find response (codes "id") ≡ some id)

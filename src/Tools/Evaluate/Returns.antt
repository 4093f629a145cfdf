-- ===== src/Tools/Evaluate/Returns.antt =====
-- An evaluation answers (src/tools.cpp `eval_code`).
use jjmcp.Json.{Json}
use jjmcp.Julia.Marker.{Marker}
use jjmcp.Tools.Dispatcher.{Host, Dispatcher, Flow}
use jjmcp.Tools.Evaluate.Quiet.{Keeps}
use jjmcp.Tools.Evaluate.Sends.{IsTimely}

module _ {W : Type 0} (host : Host W) (json : Json) (timely : IsTimely host) where
  open json use {Value}

  abbrev Any : Dispatcher W → Type 0
  Any d = Unit {0} × Unit {0}

  -- A handler that ends, whatever the state it begins in.
  abbrev Ends : {A : Type 0} → Flow W Value A → Type 0
  Ends m = Keeps Any ⊥ m

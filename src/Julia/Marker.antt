-- ===== src/Julia/Marker.antt =====
-- The markers of one evaluation (src/julia_wrap.hpp `Marker`, src/julia_wrap.cpp `make_marker`).
pub mod Distinct
use jjmcp.Base.{ℕ, ◌++◌}
use jjmcp.Text.{Bytes, codes, to_string}

pub record Marker : Type 0 where
  pub id : Bytes
  pub begin : Bytes
  pub end : Bytes
  pub error : Bytes
  pub out_end : Bytes
  pub val_end : Bytes
  pub bt : Bytes

unfoldable pub make_marker : Bytes → Marker
make_marker id = record {
  id = id;
  begin = codes "__JJMCP_BEGIN_" ++ id ++ codes "__";
  end = codes "__JJMCP_END_" ++ id ++ codes "__";
  error = codes "__JJMCP_ERROR_" ++ id ++ codes "__";
  out_end = codes "__JJMCP_OUT_END_" ++ id ++ codes "__";
  val_end = codes "__JJMCP_VAL_END_" ++ id ++ codes "__";
  bt = codes "__JJMCP_BT_" ++ id ++ codes "__";
}

-- The clock's microseconds and the process id are given.
unfoldable pub make_marker_id : ℕ → ℕ → ℕ → Bytes
unfolding to_string
make_marker_id micros pid sequence =
    to_string micros ++ codes "_" ++ to_string pid ++ codes "_" ++ to_string sequence

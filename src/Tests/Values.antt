-- ===== src/Tests/Values.antt =====
-- A JSON library and a tool dispatcher, for the runs of the server: a value is built by one of the
-- six constructors, and the dispatcher counts its calls.
use jjmcp.Base.{
  ℕ, ◌+◌, ◌≡◌, refl, ap, if◌then◌else◌, Bool, true, false, List, [], ◌∷◌, ◌++◌, Option, none, some,
}
use jjmcp.Text.{Bytes, codes, ◌=ᵇ◌}
use jjmcp.Process.{Result, success, failure}
use jjmcp.Json.{Json, ℤ, pos, lookup}
use jjmcp.Mcp.{Tools, gave}

mutual
  pub data Value : Type 0 where
    null : Value
    string : Bytes → Value
    boolean : Bool → Value
    integer : ℤ → Value
    array : Elements → Value
    object : Members → Value

  pub data Elements : Type 0 where
    no_element : Elements
    element : Value → Elements → Elements

  pub data Members : Type 0 where
    no_member : Members
    member : Bytes → Value → Members → Members

abbrev pub elements : List Value → Elements
elements [] = no_element
elements (v ∷ vs) = element v (elements vs)

abbrev pub members : List (Bytes × Value) → Members
members [] = no_member
members ((k, v) ∷ m) = member k v (members m)

abbrev pub find_member : Members → Bytes → Option Value
find_member no_member k = none
find_member (member j v m) k = if j =ᵇ k then some v else find_member m k

pub find_member-lookup :
    (m : List (Bytes × Value)) (k : Bytes) → find_member (members m) k ≡ lookup k m
unfolding lookup
find_member-lookup [] k = refl
find_member-lookup ((j, v) ∷ m) k = ap (λ o. if j =ᵇ k then some v else o) (find_member-lookup m k)

abbrev pub is_null : Value → Bool
is_null null = true
is_null _ = false

abbrev pub is_object : Value → Bool
is_object (object m) = true
is_object _ = false

abbrev pub find : Value → Bytes → Option Value
find (object m) k = find_member m k
find _ k = none

abbrev pub as_string : Value → Option Bytes
as_string (string s) = some s
as_string _ = none

abbrev pub as_boolean : Value → Option Bool
as_boolean (boolean b) = some b
as_boolean _ = none

abbrev pub as_integer : Value → Option ℤ
as_integer (integer i) = some i
as_integer _ = none

abbrev pub values : Json
values = record {
  Value = Value;
  null = null;
  string = string;
  boolean = boolean;
  integer = integer;
  array = λ vs. array (elements vs);
  object = λ m. object (members m);
  is_null = is_null;
  is_object = is_object;
  find = find;
  as_string = as_string;
  as_boolean = as_boolean;
  as_integer = as_integer;
  as_number = as_integer;
  type_error = λ type v. codes "type must be " ++ type;
  is_object-object = λ m. refl;
  find-object = find_member-lookup;
  as_string-string = λ s. refl;
  as_boolean-boolean = λ b. refl;
  as_integer-integer = λ i. refl;
  as_number-integer = λ i. refl;
}

-- A call gives the number of the calls before it.
abbrev pub counting : Tools Value
counting = record {
  State = ℕ;
  list_tools_json = λ n. array no_element;
  list_resources_json = λ n. array no_element;
  read_resource = λ uri n. (failure (codes "unknown resource"), n);
  call = λ name arguments token n. (gave false name (integer (pos n)), [], n + 1);
}

-- A request, and one without an id.
abbrev pub request : ℕ → Bytes → Value
request id method =
    let params = (codes "name", string (codes "jjmcp_status")) ∷ [] in
    object (
      members (
        (codes "jsonrpc", string (codes "2.0"))
        ∷ (codes "id", integer (pos id))
        ∷ (codes "method", string method)
        ∷ (codes "params", object (members params))
        ∷ []))

abbrev pub notification : Bytes → Value
notification method =
    object
      (members ((codes "jsonrpc", string (codes "2.0")) ∷ (codes "method", string method) ∷ []))

-- Two lines that are requests; nothing else is one.
abbrev pub parse : Bytes → Result Value
parse line =
    if line =ᵇ codes "call"
    then success (request 1 (codes "tools/call"))
    else if line =ᵇ codes "ping"
    then success (request 2 (codes "ping"))
    else failure (codes "syntax")

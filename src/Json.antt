-- ===== src/Json.antt =====
-- JSON values: serde_json's `Value`, and its `Map`, a list of entries in iteration order.
-- A number is the decimal text by which it is printed.
use ultranix_mcp.Prelude.Dict.{Dict}
use ultranix_mcp.Prelude.{
  String, Bool, true, false, Option, none, some, List, [], ◌∷◌, ◌≡◌, refl, ap,
}

mutual
  pub data Value : Type 0 where
    null : Value
    boolean : Bool → Value
    number : String → Value
    string : String → Value
    array : Items → Value
    object : Members → Value

  pub data Items : Type 0 where
    no_items : Items
    item : Value → Items → Items

  pub data Members : Type 0 where
    no_members : Members
    member : String → Value → Members → Members

abbrev pub items : Items → List Value
items no_items = []
items (item v vs) = v ∷ items vs

abbrev pub entries : Members → Dict Value
entries no_members = []
entries (member k v ms) = (k, v) ∷ entries ms

abbrev pub members : Dict Value → Members
members [] = no_members
members ((k, v) ∷ m) = member k v (members m)

pub entries-members : (m : Dict Value) → entries (members m) ≡ m
entries-members [] = refl
entries-members (kv ∷ m) = ap (λ n. kv ∷ n) (entries-members m)

pub members-entries : (ms : Members) → members (entries ms) ≡ ms
members-entries no_members = refl
members-entries (member k v ms) = ap (λ ns. member k v ns) (members-entries ms)

-- `as_str`
abbrev pub as_str : Value → Option String
as_str (string s) = some s
as_str _ = none

-- `.and_then(Value::as_str)`
abbrev pub text_of : Option Value → Option String
text_of none = none
text_of (some v) = as_str v

abbrev pub is_string : Value → Bool
is_string (string s) = true
is_string _ = false

abbrev pub is_number : Value → Bool
is_number (number s) = true
is_number _ = false

abbrev pub is_boolean : Value → Bool
is_boolean (boolean b) = true
is_boolean _ = false

-- ===== src/Json.antt =====
-- `serde_json::Value` and the accessors that the sources call, for every component that reads a
-- reply or builds a row.
use klaayguard.Prelude.{ℕ, Bool, List, [], ◌∷◌, Option, none, some, if◌then◌else◌, and_then}
use klaayguard.Text.{Text, eq_text}

-- The three forms of `serde_json::Number`. A float is its bit pattern; no component computes
-- with one.
pub data Number : Type 0 where
  pos_int : ℕ → Number
  neg_int : ℕ → Number
  float : ℕ → Number

mutual
  pub data Value : Type 0 where
    null : Value
    bool : Bool → Value
    num : Number → Value
    str : Text → Value
    arr : Items → Value
    obj : Fields → Value

  pub data Items : Type 0 where
    nil : Items
    cons : Value → Items → Items

  pub data Fields : Type 0 where
    end : Fields
    field : Text → Value → Fields → Fields

abbrev pub elements : Items → List Value
elements nil = []
elements (cons v vs) = v ∷ elements vs

abbrev pub to_items : List Value → Items
to_items [] = nil
to_items (v ∷ vs) = cons v (to_items vs)

abbrev pub array : List Value → Value
array vs = arr (to_items vs)

abbrev pub to_fields : List (Text × Value) → Fields
to_fields [] = end
to_fields ((k, v) ∷ r) = field k v (to_fields r)

-- `json!({ … })`
abbrev pub object : List (Text × Value) → Value
object r = obj (to_fields r)

unfoldable pub get_field : Text → Fields → Option Value
get_field k end = none
get_field k (field j v r) = if eq_text j k then some v else get_field k r

-- `Value::get` with a key
unfoldable pub get : Text → Value → Option Value
unfolding get_field eq_text
get k (obj r) = get_field k r
get k _ = none

abbrev pub as_str : Value → Option Text
as_str (str s) = some s
as_str _ = none

abbrev pub as_array : Value → Option (List Value)
as_array (arr vs) = some (elements vs)
as_array _ = none

-- `v.get(k).and_then(|v| v.as_str())`
abbrev pub get_str : Text → Value → Option Text
get_str k v = and_then (get k v) as_str

abbrev pub get_array : Text → Value → Option (List Value)
get_array k v = and_then (get k v) as_array

unfoldable pub insert_field : Text → Value → Fields → Fields
unfolding eq_text
insert_field k v end = field k v end
insert_field k v (field j w r) =
    let rest = insert_field k v r in if eq_text j k then field k v r else field j w rest

-- A number or `null`, as `json!` writes an `Option<u64>`.
abbrev pub opt_num : Option ℕ → Value
opt_num none = null
opt_num (some n) = num (pos_int n)

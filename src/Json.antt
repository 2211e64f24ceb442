-- ===== src/Json.antt =====
-- `serde_json::Value` as the handlers read it.
use rust_dns_backend.Base.{ℤ, Bool, Option, none, some, List, [], ◌∷◌, if◌then◌else◌}
use rust_dns_backend.Text.{Text, text_eq}

-- `int` is a number that `as_i64` reads, `other_number` any other one.
mutual
  pub data Value : Type 0 where
    null : Value
    bool : Bool → Value
    int : ℤ → Value
    other_number : Text → Value
    string : Text → Value
    array : Items → Value
    object : Fields → Value

  pub data Items : Type 0 where
    nil : Items
    cons : Value → Items → Items

  pub data Fields : Type 0 where
    no_fields : Fields
    with_field : Text → Value → Fields → Fields

unfoldable pub to_vec : Items → List Value
to_vec nil = []
to_vec (cons v vs) = v ∷ to_vec vs

abbrev pub as_array : Value → Option (List Value)
as_array (array vs) = some (to_vec vs)
as_array _ = none

abbrev pub as_str : Value → Option Text
as_str (string s) = some s
as_str _ = none

abbrev pub as_i64 : Value → Option ℤ
as_i64 (int n) = some n
as_i64 _ = none

-- `as_str().unwrap_or("")`
abbrev pub str_or_empty : Value → Text
str_or_empty (string s) = s
str_or_empty _ = []

-- `get` of an object.
unfoldable pub get_field : Text → Fields → Option Value
unfolding text_eq
get_field k no_fields = none
get_field k (with_field j v fs) = if text_eq j k then some v else get_field k fs

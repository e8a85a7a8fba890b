-- ===== src/Observer/Json.antt =====
-- The JSON values that proxy/src/observation.rs reads, and its accessors of them. A number is what
-- `as_u64` says of it.
use flock.Base.{ℕ, Bool, true, false, Option, none, some, String, String-discrete, ite}

mutual
  pub data Value : Type 0 where
    null : Value
    boolean : Bool → Value
    number : Option ℕ → Value
    text : String → Value
    array : Values → Value
    object : Fields → Value

  -- the entries of an array
  pub data Values : Type 0 where
    no_values : Values
    value_and : Value → Values → Values

  -- the entries of an object, no key twice
  pub data Fields : Type 0 where
    no_fields : Fields
    field_and : String → Value → Fields → Fields

-- `Map::get`
unfoldable pub get : Fields → String → Option Value
get no_fields key = none
get (field_and k v rest) key = ite (String-discrete k key) (some v) (get rest key)

abbrev pub as_object : Value → Option Fields
as_object (object fs) = some fs
as_object _ = none

abbrev pub as_array : Value → Option Values
as_array (array vs) = some vs
as_array _ = none

abbrev pub as_u64 : Value → Option ℕ
as_u64 (number n) = n
as_u64 _ = none

abbrev pub as_str : Value → Option String
as_str (text s) = some s
as_str _ = none

abbrev pub is_null : Value → Bool
is_null null = true
is_null _ = false

-- `Value::get`: nothing, but on an object
unfoldable pub get_value : Value → String → Option Value
unfolding get
get_value (object fs) key = get fs key
get_value _ key = none

abbrev pub opt_u64 : Option Value → Option ℕ
opt_u64 none = none
opt_u64 (some v) = as_u64 v

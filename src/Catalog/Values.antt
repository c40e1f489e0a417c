-- ===== src/Catalog/Values.antt =====
-- JSON values for the tests: as much of `serde_json::Value` as a spec of src/queries uses.
use dd2_server.Prelude.{
  Bool, true, false, Option, none, some, List, [], ◌∷◌, String, if◌then◌else◌, string_eq, ◌==◌,
}
use dd2_server.Catalog.{Json}
use dd2_server.Catalog.Collectibles.{Numbers}

mutual
  pub data Value : Type 0 where
    text : String → Value
    boolean : Bool → Value
    array : Values → Value
    object : Fields → Value

  pub data Values : Type 0 where
    end : Values
    item : Value → Values → Values

  pub data Fields : Type 0 where
    close : Fields
    field : String → Value → Fields → Fields

abbrev pub values : Values → List Value
values end = []
values (item v vs) = v ∷ values vs

abbrev pub field_of : String → Fields → Option Value
field_of key close = none
field_of key (field name v fields) = if name == key then some v else field_of key fields

abbrev pub get : String → Value → Option Value
get key (object fields) = field_of key fields
get key (text s) = none
get key (boolean b) = none
get key (array vs) = none

abbrev pub as_array : Value → Option (List Value)
as_array (array vs) = some (values vs)
as_array (object fields) = none
as_array (text s) = none
as_array (boolean b) = none

abbrev pub as_bool : Value → Option Bool
as_bool (boolean b) = some b
as_bool (object fields) = none
as_bool (text s) = none
as_bool (array vs) = none

abbrev pub as_str : Value → Option String
as_str (text s) = some s
as_str (object fields) = none
as_str (boolean b) = none
as_str (array vs) = none

abbrev pub is_object : Value → Bool
is_object (object fields) = true
is_object (text s) = false
is_object (boolean b) = false
is_object (array vs) = false

abbrev pub json : Json Value
json = record {
  get = get;
  as_array = as_array;
  as_bool = as_bool;
  as_str = as_str;
  is_object = is_object;
}

abbrev pub no_numbers : Numbers Value
no_numbers = record { as_i64 = λ v. none; as_u64 = λ v. none; as_f64 = λ v. none }

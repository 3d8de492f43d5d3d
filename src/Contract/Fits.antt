-- ===== src/Contract/Fits.antt =====
-- web/src/api/schema.ts read as a check on values: which JSON values a type of the contract admits. A
-- type admits members that it does not name, as the compiler does for a value that is not a literal.
use Prim.Native.String.{String}
use wealthboard.Base.{Bool, true, false, ◌&&◌, ◌||◌, Option, none, some, codes, same}
use wealthboard.Json.{
  Json, Items, Fields, is_null, json_bool, json_number, json_text, json_list, json_object, no_items,
  item, get_field,
}
use wealthboard.Contract.{
  Shape, Members, text, number, boolean, null, unknown, constant, list_of, one_of, all_of, object,
  required, optional, nil, ◌&◌,
}

abbrev pub is_text : Json → Bool
is_text (json_text _) = true
is_text _ = false

abbrev pub is_number : Json → Bool
is_number (json_number _) = true
is_number _ = false

abbrev pub is_bool : Json → Bool
is_bool (json_bool _) = true
is_bool _ = false

abbrev pub is_constant : String → Json → Bool
is_constant s (json_text t) = same (codes s) t
is_constant s _ = false

abbrev pub every_item : (Json → Bool) → Items → Bool
every_item p no_items = true
every_item p (item v vs) = p v && every_item p vs

abbrev pub is_list_of : (Json → Bool) → Json → Bool
is_list_of p (json_list vs) = every_item p vs
is_list_of p _ = false

-- A required member is there and fits; an optional one may be missing.
abbrev pub present : (Json → Bool) → Option Json → Bool
present p none = false
present p (some v) = p v

abbrev pub absent_or : (Json → Bool) → Option Json → Bool
absent_or p none = true
absent_or p (some v) = p v

abbrev pub is_object_of : (Fields → Bool) → Json → Bool
is_object_of p (json_object fs) = p fs
is_object_of p _ = false

unfoldable mutual
  pub fits : Shape → Json → Bool
  fits text v = is_text v
  fits number v = is_number v
  fits boolean v = is_bool v
  fits null v = is_null v
  fits unknown v = true
  fits (constant s) v = is_constant s v
  fits (list_of a) v = is_list_of (fits a) v
  fits (one_of a b) v = fits a v || fits b v
  fits (all_of a b) v = fits a v && fits b v
  fits (object ms) v = is_object_of (have ms) v

  pub have : Members → Fields → Bool
  have nil fs = true
  have (required k a & ms) fs = present (fits a) (get_field k fs) && have ms fs
  have (optional k a & ms) fs = absent_or (fits a) (get_field k fs) && have ms fs

-- ===== src/Json.antt =====
-- The JSON values that web/src/api/http/httpAdapter.ts sends and reads. The numbers are the natural
-- numbers, which an HTTP status is.
use Prim.Native.String.{String}
use wealthboard.Base.{ℕ, Bool, true, false, Option, none, some, Text, codes, same, if◌then◌else◌}

mutual
  pub data Json : Type 0 where
    json_null : Json
    json_bool : Bool → Json
    json_number : ℕ → Json
    json_text : Text → Json
    json_list : Items → Json
    json_object : Fields → Json

  pub data Items : Type 0 where
    no_items : Items
    item : Json → Items → Items

  pub data Fields : Type 0 where
    no_fields : Fields
    field : String → Json → Fields → Fields

-- Two names of members, compared.
unfoldable pub same_name : String → String → Bool
same_name k j = same (codes k) (codes j)

-- `o.k`, where a missing member is `undefined`.
unfoldable pub get_field : String → Fields → Option Json
unfolding same_name
get_field k no_fields = none
get_field k (field j v fs) = if same_name j k then some v else get_field k fs

-- `{ ...o, k: v }`
unfoldable pub set_field : String → Json → Fields → Fields
unfolding same_name
set_field k v no_fields = field k v no_fields
set_field k v (field j w fs) = if same_name j k then field k v fs else field j w (set_field k v fs)

unfoldable pub member_of : String → Json → Option Json
unfolding get_field
member_of k (json_object fs) = get_field k fs
member_of k _ = none

abbrev pub is_null : Json → Bool
is_null json_null = true
is_null _ = false

-- A member that is read as a text.
abbrev pub as_text : Option Json → Option Text
as_text (some (json_text t)) = some t
as_text _ = none

unfoldable pub text_member : String → Json → Option Text
unfolding member_of
text_member k v = as_text (member_of k v)

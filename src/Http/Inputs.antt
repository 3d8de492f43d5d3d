-- ===== src/Http/Inputs.antt =====
-- web/src/api/datasource.ts: the arguments of the calls that are not bodies, with the enumerations of
-- web/src/api/schema.ts that they are, and the texts that stand for them in a request.
use wealthboard.Base.{ℕ, [], ◌∷◌, List, Option, none, some, Text, codes, to_string}
use Prim.Native.String.{String}

pub record PageQuery : Type 0 where
  pub limit : Option ℕ
  pub offset : Option ℕ
  pub from : Option Text
  pub to : Option Text

pub data ImportFormat : Type 0 where
  csv json_format : ImportFormat

pub record ImportFile : Type 0 where
  pub name : Text
  pub content : Text
  pub format : ImportFormat

-- `DashboardRange` of api/types.ts.
pub data DashboardRange : Type 0 where
  one_month three_months six_months one_year all_time : DashboardRange

pub data ArchivedFilter : Type 0 where
  only_active only_archived any_account : ArchivedFilter

-- `CorporateActionKind` of api/types.ts.
pub data CorporateActionKind : Type 0 where
  stock_splits spinoffs mergers dividend_reinvestments in_kind_transfers : CorporateActionKind

pub data Direction : Type 0 where
  up down : Direction

-- The parameters of `ActivityQuery`.
pub record ActivityQuery : Type 0 where
  pub kind : Option Text
  pub account_id : Option Text
  pub type : Option Text
  pub from : Option Text
  pub to : Option Text
  pub q : Option Text
  pub limit : Option ℕ
  pub offset : Option ℕ

abbrev pub range_text : DashboardRange → Text
range_text one_month = codes "1m"
range_text three_months = codes "3m"
range_text six_months = codes "6m"
range_text one_year = codes "1y"
range_text all_time = codes "all"

abbrev pub archived_text : ArchivedFilter → Text
archived_text only_active = codes "active"
archived_text only_archived = codes "archived"
archived_text any_account = codes "all"

abbrev pub kind_text : CorporateActionKind → Text
kind_text stock_splits = codes "stock-splits"
kind_text spinoffs = codes "spinoffs"
kind_text mergers = codes "mergers"
kind_text dividend_reinvestments = codes "dividend-reinvestments"
kind_text in_kind_transfers = codes "in-kind-transfers"

abbrev pub direction_text : Direction → Text
direction_text up = codes "up"
direction_text down = codes "down"

abbrev pub format_type : ImportFormat → String
format_type csv = "text/csv"
format_type json_format = "application/json"

-- `String(n)` of a number that may be missing.
abbrev pub number_text : Option ℕ → Option Text
number_text none = none
number_text (some n) = some (to_string n)

-- `q?.limit` and `q?.offset`
abbrev pub paging : Option PageQuery → List (String × Option Text)
paging none = ("limit", none) ∷ ("offset", none) ∷ []
paging (some q) = ("limit", number_text q.limit) ∷ ("offset", number_text q.offset) ∷ []

-- `page`
abbrev pub page : Option PageQuery → List (String × Option Text)
page none = ("limit", none) ∷ ("offset", none) ∷ ("from", none) ∷ ("to", none) ∷ []
page (some q) =
    ("limit", number_text q.limit)
    ∷ ("offset", number_text q.offset)
    ∷ ("from", q.from)
    ∷ ("to", q.to)
    ∷ []

-- `{ ...q }`
abbrev pub activity_entries : ActivityQuery → List (String × Option Text)
activity_entries q =
    ("kind", q.kind)
    ∷ ("accountId", q.account_id)
    ∷ ("type", q.type)
    ∷ ("from", q.from)
    ∷ ("to", q.to)
    ∷ ("q", q.q)
    ∷ ("limit", number_text q.limit)
    ∷ ("offset", number_text q.offset)
    ∷ []

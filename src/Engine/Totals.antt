-- ===== src/Engine/Totals.antt =====
-- Portfolio totals in the base currency on a date, and the allocation of assets to buckets.
use wealthboard.Base.{
  ℕ, Bool, true, false, not, ◌&&◌, ◌||◌, Option, none, some, List, [], ◌∷◌, ◌++◌, ltb, leb,
  if◌then◌else◌, sort_by, ℤ, pos, ◌+ℤ◌, ◌-ℤ◌, ltb_ℤ, leb_ℤ, Text, codes, same, Result, ok, ◌>>=◌,
  for_each, get_key, set_key,
}
use wealthboard.Decimal.{percent_of}
use wealthboard.World.{AccountRecord, Category, date_of}
use wealthboard.Engine.Ledgers.{Engine}
use wealthboard.Engine.Lookup.{category, is_liability, is_liability_category}
use wealthboard.Engine.Values.{BaseValue, base_value_at, unique, or_zero}

pub record Totals : Type 0 where
  pub assets : ℤ
  pub liabilities : ℤ
  pub net_worth : ℤ
  pub liquid : ℤ
  pub investible : ℤ
  pub complete : Bool
  pub missing_currencies : List Text

-- `activeAt`
abbrev pub archived_by : Option ℕ → ℕ → Bool
archived_by none date = false
archived_by (some t) date = leb (date_of t) date

unfoldable pub active_at : AccountRecord → ℕ → Bool
active_at a date = if ltb date a.opened_at then false else not (archived_by a.archived_at date)

abbrev pub is_liquid_category : Option Category → Bool
is_liquid_category none = false
is_liquid_category (some c) = c.is_liquid

abbrev pub is_investible_category : Option Category → Bool
is_investible_category none = false
is_investible_category (some c) = c.is_investible

-- The variables of the loop of `totalsAt`.
pub record Tally : Type 0 where
  pub assets : ℤ
  pub liabilities : ℤ
  pub liquid : ℤ
  pub investible : ℤ
  pub complete : Bool
  pub missing : List Text

-- The rest of a round, once the account's value is known.
unfoldable pub add_value : Option Category → Tally → BaseValue → Tally
add_value cat s bv =
    let seen = record s {
      complete = s.complete && bv.complete;
      missing = s.missing ++ bv.missing_currencies;
    } in
    elim bv.value [
      | none ↦ seen
      | some v ↦
          if is_liability_category cat
          then record seen { liabilities = s.liabilities +ℤ v }
          else record seen {
            assets = s.assets +ℤ v;
            liquid = if is_liquid_category cat then s.liquid +ℤ v else s.liquid;
            investible = if is_investible_category cat then s.investible +ℤ v else s.investible;
          }
    ]

unfoldable pub add_account : Engine → ℕ → Tally → AccountRecord → Result Tally
add_account e date s a =
    if not a.is_included_in_net_worth || not (active_at a date)
    then ok s
    else base_value_at e a.id date >>= λ bv. ok (add_value (category e a.category_id) s bv)

abbrev pub empty_tally : Tally
empty_tally = record {
  assets = pos 0;
  liabilities = pos 0;
  liquid = pos 0;
  investible = pos 0;
  complete = true;
  missing = [];
}

abbrev pub to_totals : Tally → Totals
to_totals s = record {
  assets = s.assets;
  liabilities = s.liabilities;
  net_worth = s.assets -ℤ s.liabilities;
  liquid = s.liquid;
  investible = s.investible;
  complete = s.complete;
  missing_currencies = unique s.missing;
}

-- `totalsAt`
unfoldable pub totals_at : Engine → ℕ → Result Totals
totals_at e date =
    for_each (add_account e date) empty_tally e.world.accounts >>= λ s. ok (to_totals s)

-- The grouping of `allocation`.
pub data Grouping : Type 0 where
  by_category by_institution by_currency by_investible : Grouping

-- Buckets in insertion order and their total.
pub record Buckets : Type 0 where
  pub entries : List (Text × ℤ)
  pub total : ℤ

abbrev pub empty_buckets : Buckets
empty_buckets = record { entries = []; total = pos 0 }

-- `buckets.set(key, (buckets.get(key) ?? 0n) + v); total += v`
unfoldable pub put_bucket : Text → ℤ → Buckets → Buckets
put_bucket key v b = record {
  entries = set_key same key (or_zero (get_key same key b.entries) +ℤ v) b.entries;
  total = b.total +ℤ v;
}

abbrev pub or_text : Option Text → Text → Text
or_text none d = d
or_text (some t) d = t

abbrev pub category_name : Option Category → Option Text
category_name none = none
category_name (some c) = some c.name

-- The key of an account; `institution_name` is the name of an institution, if it is known.
unfoldable pub bucket_key : (ℕ → Option Text) → Grouping → Option Category → AccountRecord → Text
bucket_key institution_name by_institution cat a = elim a.institution_id [
  | none ↦ codes "No institution"
  | some i ↦ or_text (institution_name i) (codes "No institution")
]
bucket_key institution_name by_currency cat a = a.currency
bucket_key institution_name by_category cat a = or_text (category_name cat) (codes "Other")
bucket_key institution_name by_investible cat a = or_text (category_name cat) (codes "Other")

abbrev pub is_skipped : Grouping → Option Category → Bool
is_skipped by_investible cat = not (is_investible_category cat)
is_skipped by_category cat = false
is_skipped by_institution cat = false
is_skipped by_currency cat = false

abbrev pub put_positive : Text → Option ℤ → Buckets → Buckets
put_positive key none b = b
put_positive key (some v) b = if leb_ℤ v (pos 0) then b else put_bucket key v b

unfoldable pub allocate :
    (ℕ → Option Text) → Engine → ℕ → Grouping → Buckets → AccountRecord → Result Buckets
allocate institution_name e date by b a =
    if not a.is_included_in_net_worth
      || not (active_at a date)
      || is_liability e a
      || is_skipped by (category e a.category_id)
    then ok b
    else base_value_at e a.id date >>= λ bv.
        ok (put_positive (bucket_key institution_name by (category e a.category_id) a) bv.value b)

pub record AllocationItem : Type 0 where
  pub name : Text
  pub value_minor : ℤ
  pub share_percent : Text

-- `toAllocation`: the largest bucket first, each with its share of the total.
abbrev pub larger_bucket : Text × ℤ → Text × ℤ → Bool
larger_bucket a b = ltb_ℤ b.1 a.1

unfoldable pub to_item : ℤ → List AllocationItem → Text × ℤ → Result (List AllocationItem)
to_item total items (name, v) = percent_of v total 2 >>= λ share.
    ok (items ++ (record { name = name; value_minor = v; share_percent = share } ∷ []))

unfoldable pub to_allocation : Buckets → Result (List AllocationItem)
to_allocation b = for_each (to_item b.total) [] (sort_by larger_bucket b.entries)

-- `allocation`
unfoldable pub allocation : (ℕ → Option Text) → Engine → ℕ → Grouping → Result (List AllocationItem)
allocation institution_name e date by =
    for_each (allocate institution_name e date by) empty_buckets e.world.accounts >>= λ b.
    to_allocation b

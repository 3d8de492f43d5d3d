-- ===== src/Adapter/Pages.antt =====
-- The paged reads of `accounts` in adapter.ts: `checkPage` and the lists of transactions, valuations
-- and trades, the latest first.
use wealthboard.Base.{
  ℕ, ◌+◌, ◌&&◌, ◌||◌, ltb, leb, Bool, true, false, Option, none, some, List, [], ◌∷◌, ◌++◌, keep,
  take, drop, length, Result, ok, ◌>>◌, throw_if, invalid,
}
use wealthboard.World.{TxnRecord, ValuationRecord, PositionEventRecord}
use wealthboard.Engine.Ledgers.{Engine, txns, valuations, events}
use wealthboard.Adapter.Accounts.{or_default}

pub record PageQuery : Type 0 where
  pub limit : Option ℕ
  pub offset : Option ℕ
  pub from : Option ℕ
  pub to : Option ℕ

abbrev pub is_beyond : ℕ → ℕ → Option ℕ → Bool
is_beyond low high none = false
is_beyond low high (some n) = ltb n low || ltb high n

-- `checkPage`
unfoldable pub check_page : PageQuery → Result (Unit {0})
check_page q =
    throw_if (is_beyond 1 100 q.limit) invalid >> throw_if (is_beyond 0 10000 q.offset) invalid

-- `list.slice().reverse()`
unfoldable pub reversed {ℓ} : {A : Type ℓ} → List A → List A
reversed [] = []
reversed (x ∷ xs) = reversed xs ++ x ∷ []

pub record Page {ℓ} (A : Type ℓ) : Type ℓ where
  pub items : List A
  pub limit : ℕ
  pub offset : ℕ
  pub has_more : Bool

-- `{ items: all.slice(offset, offset + limit), limit, offset, hasMore: offset + limit < all.length }`
unfoldable pub page_of {ℓ} : {A : Type ℓ} → ℕ → ℕ → List A → Page A
page_of limit offset all = record {
  items = take limit (drop offset all);
  limit = limit;
  offset = offset;
  has_more = ltb (offset + limit) (length all);
}

abbrev pub page_for {ℓ} : {A : Type ℓ} → PageQuery → List A → Page A
page_for q all = page_of (or_default q.limit 50) (or_default q.offset 0) all

abbrev pub is_from : Option ℕ → ℕ → Bool
is_from none date = true
is_from (some d) date = leb d date

abbrev pub is_to : Option ℕ → ℕ → Bool
is_to none date = true
is_to (some d) date = leb date d

-- `accounts.transactions`
unfoldable pub list_transactions : ℕ → PageQuery → Engine → Result (Page TxnRecord)
list_transactions id q e =
    check_page q
    >> ok
        (page_for q (reversed (keep (λ t. is_from q.from t.date && is_to q.to t.date) (txns e id))))

-- `accounts.valuations`
unfoldable pub list_valuations : ℕ → PageQuery → Engine → Result (Page ValuationRecord)
list_valuations id q e = check_page q >> ok (page_for q (reversed (valuations e id)))

-- `accounts.positionEvents`
unfoldable pub list_trades : ℕ → PageQuery → Engine → Result (Page PositionEventRecord)
list_trades id q e = check_page q >> ok (page_for q (reversed (events e id)))

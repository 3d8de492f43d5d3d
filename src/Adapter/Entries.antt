-- ===== src/Adapter/Entries.antt =====
-- The handlers of `transactions`, `valuations` and `transfers` in adapter.ts, and the checks they
-- share.
use wealthboard.Base.{
  ℕ, suc, Bool, true, false, not, ◌&&◌, Option, none, some, List, [], ◌∷◌, ◌++◌, ltb, ◌==◌,
  if◌then◌else◌, keep, any, find, ℤ, pos, neg, leb_ℤ, ltb_ℤ, Text, all_digits, drop, Result, ok,
  err, ◌>>=◌, ◌>>◌, throw_if, not_found, invalid, insufficient, syntax_error, same, codes,
}
use wealthboard.Decimal.{starts_minus, strip_minus, big_int}
use wealthboard.World.{
  TransactionType, transfer, manual_adjustment, withdrawal, positions, balance, TrackingMode,
  TxnRecord, ValuationRecord, AccountRecord, World,
}
use wealthboard.Engine.Ledgers.{Engine}
use wealthboard.Engine.Values.{cash_at}

-- What a call takes from outside: the ids that `randomId` gives it, in turn, and the clock.
pub record Host : Type 0 where
  pub random_id : ℕ → ℕ
  pub now : ℕ

abbrev pub is_empty {ℓ} : {A : Type ℓ} → List A → Bool
is_empty [] = true
is_empty (x ∷ xs) = false

abbrev pub is_some {ℓ} : {A : Type ℓ} → Option A → Bool
is_some none = false
is_some (some a) = true

abbrev pub is_positions : TrackingMode → Bool
is_positions positions = true
is_positions balance = false

-- `BigInt(s)` for a text of digits that may have a minus sign.
unfoldable pub integer : Text → Result ℤ
integer s =
    if starts_minus s && is_empty (drop 1 s)
    then err syntax_error
    else if starts_minus s
    then (big_int (drop 1 s) >>= λ n. ok (neg (pos n)))
    else (big_int s >>= λ n. ok (pos n))

-- `/^-?\d+$/.test(s)`
abbrev pub is_minor_text : Text → Bool
is_minor_text s = not (is_empty (strip_minus s)) && all_digits (strip_minus s)

-- `positiveMinor`
unfoldable pub positive_minor : Text → Result ℤ
positive_minor s = do
  throw_if (not (is_minor_text s)) invalid
  v ← integer s
  throw_if (leb_ℤ v (pos 0)) invalid
  ok v

-- `findAccount`
unfoldable pub find_account : World → ℕ → Result AccountRecord
find_account w id = elim (find (λ a. a.id == id) w.accounts) [
  | none ↦ err not_found
  | some a ↦ ok a
]

-- `w.transactions.push(t)`, where `t` takes the next number of the world.
abbrev pub push_txn : TxnRecord → World → World
push_txn t w = record w { transactions = w.transactions ++ t ∷ []; seq = suc w.seq }

pub record TransactionCreate : Type 0 where
  pub account_id : ℕ
  pub kind : TransactionType
  pub amount_minor : Text
  pub transaction_date : ℕ
  pub description : Option Text
  pub notes : Option Text
  pub external_id : Option Text

abbrev pub is_adjustment : TransactionType → Bool
is_adjustment manual_adjustment = true
is_adjustment _ = false

abbrev pub is_withdrawal : TransactionType → Bool
is_withdrawal withdrawal = true
is_withdrawal _ = false

unfoldable pub read_amount : TransactionType → Text → Result ℤ
read_amount kind s = if is_adjustment kind then integer s else positive_minor s

abbrev pub new_transaction : Host → World → AccountRecord → ℤ → TransactionCreate → TxnRecord
new_transaction h w a amount body = record {
  id = h.random_id 0;
  account_id = a.id;
  kind = body.kind;
  amount_minor = amount;
  date = body.transaction_date;
  seq = w.seq;
  description = body.description;
  notes = body.notes;
  external_id = body.external_id;
  transfer_group_id = none;
  instrument_id = none;
  created_at = h.now;
}

-- `transactions.create`
unfoldable pub create_transaction : Host → TransactionCreate → Engine → Result World
create_transaction h body e = do
  a ← find_account e.world body.account_id
  throw_if (is_some a.archived_at) invalid
  throw_if (ltb e.today body.transaction_date) invalid
  amount ← read_amount body.kind body.amount_minor
  throw_if
      (is_positions a.tracking_mode
        && is_withdrawal body.kind
        && ltb_ℤ (cash_at e a.id body.transaction_date) amount)
      insufficient
  ok (push_txn (new_transaction h e.world a amount body) e.world)

pub record TransactionUpdate : Type 0 where
  pub kind : TransactionType
  pub amount_minor : Text
  pub transaction_date : ℕ
  pub description : Option Text
  pub notes : Option Text

-- The first element that fits is changed, in place.
abbrev pub update_first {ℓ} : {A : Type ℓ} → (A → Bool) → (A → A) → List A → List A
update_first test f [] = []
update_first test f (x ∷ xs) = if test x then f x ∷ xs else x ∷ update_first test f xs

abbrev pub edit_transaction : TransactionUpdate → ℤ → TxnRecord → TxnRecord
edit_transaction body amount t = record t {
  kind = body.kind;
  amount_minor = amount;
  date = body.transaction_date;
  description = body.description;
  notes = body.notes;
}

-- `transactions.update`
unfoldable pub update_transaction : ℕ → TransactionUpdate → Engine → Result World
update_transaction id body e = do
  throw_if (not (any (λ t. t.id == id) e.world.transactions)) not_found
  amount ← integer body.amount_minor
  ok (record e.world {
    transactions =
        update_first (λ t. t.id == id) (edit_transaction body amount) e.world.transactions;
  })

-- `t.transferGroupId ? x.transferGroupId !== t.transferGroupId : x.id !== id`
abbrev pub is_in_group : ℕ → Option ℕ → Bool
is_in_group g none = false
is_in_group g (some g') = g' == g

abbrev pub stays : ℕ → Option ℕ → TxnRecord → Bool
stays id none x = not (x.id == id)
stays id (some g) x = not (is_in_group g x.transfer_group_id)

-- `transactions.remove`: a transfer goes with both of its sides.
unfoldable pub remove_transaction : ℕ → Engine → Result World
remove_transaction id e = elim (find (λ t. t.id == id) e.world.transactions) [
  | none ↦ err not_found
  | some t ↦
      ok
        (record e.world { transactions = keep (stays id t.transfer_group_id) e.world.transactions })
]

pub record ValuationCreate : Type 0 where
  pub account_id : ℕ
  pub value_minor : Text
  pub valuation_date : ℕ
  pub notes : Option Text

abbrev pub new_valuation : Host → World → AccountRecord → ℤ → ValuationCreate → ValuationRecord
new_valuation h w a value body = record {
  id = h.random_id 0;
  account_id = a.id;
  value_minor = value;
  date = body.valuation_date;
  seq = w.seq;
  notes = body.notes;
  created_at = h.now;
}

-- `valuations.create`
unfoldable pub create_valuation : Host → ValuationCreate → Engine → Result World
create_valuation h body e = do
  a ← find_account e.world body.account_id
  throw_if (is_positions a.tracking_mode) invalid
  throw_if (ltb e.today body.valuation_date) invalid
  value ← integer body.value_minor
  ok (record e.world {
    valuations = e.world.valuations ++ new_valuation h e.world a value body ∷ [];
    seq = suc e.world.seq;
  })

-- `valuations.remove`
unfoldable pub remove_valuation : ℕ → Engine → Result World
remove_valuation id e = do
  throw_if (not (any (λ v. v.id == id) e.world.valuations)) not_found
  ok (record e.world { valuations = keep (λ v. not (v.id == id)) e.world.valuations })

pub record TransferCreate : Type 0 where
  pub from_account_id : ℕ
  pub to_account_id : ℕ
  pub source_amount_minor : Text
  pub destination_amount_minor : Option Text
  pub transaction_date : ℕ
  pub description : Option Text

-- What arrives: the amount that is given, or what was sent if the currencies are the same. An empty
-- text is no amount.
unfoldable pub arrives : Option Text → Bool → ℤ → Result ℤ
arrives none one_currency source = if one_currency then ok source else err invalid
arrives (some []) one_currency source = if one_currency then ok source else err invalid
arrives (some (c ∷ s)) one_currency source = positive_minor (c ∷ s)

-- One side of a transfer.
abbrev pub side : ℕ → ℕ → ℕ → ℤ → ℕ → ℕ → Text → ℕ → TxnRecord
side id group account_id amount date seq description now = record {
  id = id;
  account_id = account_id;
  kind = transfer;
  amount_minor = amount;
  date = date;
  seq = seq;
  description = some description;
  notes = none;
  external_id = none;
  transfer_group_id = some group;
  instrument_id = none;
  created_at = now;
}

abbrev pub described_as : Option Text → Text → Text
described_as none default = default
described_as (some s) default = s

-- `transfers.create`
unfoldable pub create_transfer : Host → TransferCreate → Engine → Result World
create_transfer h body e = do
  throw_if (body.from_account_id == body.to_account_id) invalid
  from ← find_account e.world body.from_account_id
  to ← find_account e.world body.to_account_id
  source ← positive_minor body.source_amount_minor
  dest ← arrives body.destination_amount_minor (same from.currency to.currency) source
  throw_if (ltb e.today body.transaction_date) invalid
  let sent =
      side (h.random_id 1) (h.random_id 0) from.id (neg source) body.transaction_date e.world.seq
        (described_as body.description (codes "To " ++ to.name)) h.now
  let received =
      side (h.random_id 2) (h.random_id 0) to.id dest body.transaction_date (suc e.world.seq)
        (described_as body.description (codes "From " ++ from.name)) h.now
  ok (push_txn received (push_txn sent e.world))

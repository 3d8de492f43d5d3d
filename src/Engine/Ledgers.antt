-- ===== src/Engine/Ledgers.antt =====
-- The engine's constructor: each account's transactions, valuations and trades, and each
-- instrument's prices, in the order of their dates. The memo tables only save work.
use wealthboard.Base.{ℕ, Bool, true, false, List, ltb, ◌==◌, if◌then◌else◌, keep, sort_by, ℤ, neg}
use wealthboard.World.{
  TransactionType, withdrawal, fee, capital_loss, sale, liability_payment, World, TxnRecord,
  ValuationRecord, PositionEventRecord, SecurityPrice,
}

-- The class's state that is not derived.
pub record Engine : Type 0 where
  pub world : World
  pub today : ℕ

-- `bySeq(a, b) < 0`, on the dates and sequence numbers of two entries
abbrev pub key_before : ℕ → ℕ → ℕ → ℕ → Bool
key_before d s d' s' = if d == d' then ltb s s' else ltb d d'

abbrev pub txn_before : TxnRecord → TxnRecord → Bool
txn_before a b = key_before a.date a.seq b.date b.seq

abbrev pub valuation_before : ValuationRecord → ValuationRecord → Bool
valuation_before a b = key_before a.date a.seq b.date b.seq

abbrev pub event_before : PositionEventRecord → PositionEventRecord → Bool
event_before a b = key_before a.date a.seq b.date b.seq

-- On a tie the comparison answers 1 either way, so the stable sort keeps the order of the world.
abbrev pub price_before : SecurityPrice → SecurityPrice → Bool
price_before a b = ltb a.effective_date b.effective_date

-- `txns`
unfoldable pub txns : Engine → ℕ → List TxnRecord
txns e account_id = sort_by txn_before (keep (λ t. t.account_id == account_id) e.world.transactions)

-- `valuations`
unfoldable pub valuations : Engine → ℕ → List ValuationRecord
valuations e account_id =
    sort_by valuation_before (keep (λ v. v.account_id == account_id) e.world.valuations)

-- `events`
unfoldable pub events : Engine → ℕ → List PositionEventRecord
events e account_id =
    sort_by event_before (keep (λ p. p.account_id == account_id) e.world.position_events)

-- `pricesByInstrument.get(id) ?? []`
unfoldable pub prices_of : Engine → ℕ → List SecurityPrice
prices_of e instrument_id =
    sort_by price_before (keep (λ p. p.instrument_id == instrument_id) e.world.prices)

-- `txnEffect`: the signed change of the account's balance or cash
abbrev pub lowers : TransactionType → Bool
lowers withdrawal = true
lowers fee = true
lowers capital_loss = true
lowers sale = true
lowers liability_payment = true
lowers _ = false

unfoldable pub txn_effect : TransactionType → ℤ → ℤ
txn_effect kind amount = if lowers kind then neg amount else amount

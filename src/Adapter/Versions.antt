-- ===== src/Adapter/Versions.antt =====
-- The requests of adapter.ts: a world's version, and a world when a callback throws.
use wealthboard.Base.{ℕ, ◌≡◌, refl, Bool, true, false, arith, Text, Result, ok, err}
use wealthboard.World.{World}
use wealthboard.Engine.Ledgers.{Engine}
use wealthboard.Adapter.Entries.{
  Host, TransactionCreate, TransactionUpdate, ValuationCreate, TransferCreate, create_transaction,
  update_transaction, remove_transaction, create_valuation, remove_valuation, create_transfer,
  integer,
}
use wealthboard.Adapter.Accounts.{
  AccountCreate, AccountUpdate, create_account, place_account, open_with, update_account,
  set_account_archived, remove_account,
}
use wealthboard.Adapter.Trades.{TradeCreate, TradeUpdate, create_trade, update_trade, remove_trade}
use wealthboard.Adapter.Prices.{
  PriceUpsert, RateCreate, upsert_price, remove_price, create_rate, remove_rate,
}
use wealthboard.Adapter.Backend.{
  Request, account_create, account_update, account_set_archived, account_remove, transaction_create,
  transaction_update, transaction_remove, valuation_create, valuation_remove, transfer_create,
  trade_create, trade_update, trade_remove, price_upsert, price_remove, rate_create, rate_remove,
  settle, perform,
}
use wealthboard.Adapter.Leaves.{Leaves, settle-Leaves}

-- No handler changes the version of the world; `write` does.
abbrev Same : ℕ → World → Type 0
Same v w = w.version ≡ v

create_transaction-Same :
    (h : Host) (body : TransactionCreate) (e : Engine)
    → Leaves (Same e.world.version) (create_transaction h body e)
unfolding create_transaction
create_transaction-Same h body e = ground arith

update_transaction-Same :
    (id : ℕ) (body : TransactionUpdate) (e : Engine)
    → Leaves (Same e.world.version) (update_transaction id body e)
unfolding update_transaction
update_transaction-Same id body e = ground arith

create_valuation-Same :
    (h : Host) (body : ValuationCreate) (e : Engine)
    → Leaves (Same e.world.version) (create_valuation h body e)
unfolding create_valuation
create_valuation-Same h body e = ground arith

remove_valuation-Same :
    (id : ℕ) (e : Engine) → Leaves (Same e.world.version) (remove_valuation id e)
unfolding remove_valuation
remove_valuation-Same id e = ground arith

create_transfer-Same :
    (h : Host) (body : TransferCreate) (e : Engine)
    → Leaves (Same e.world.version) (create_transfer h body e)
unfolding create_transfer
create_transfer-Same h body e = ground arith

create_trade-Same :
    (h : Host) (body : TradeCreate) (e : Engine)
    → Leaves (Same e.world.version) (create_trade h body e)
unfolding create_trade
create_trade-Same h body e = ground arith

update_trade-Same :
    (id : ℕ) (body : TradeUpdate) (e : Engine)
    → Leaves (Same e.world.version) (update_trade id body e)
unfolding update_trade
update_trade-Same id body e = ground arith

update_account-Same :
    (id : ℕ) (body : AccountUpdate) (e : Engine)
    → Leaves (Same e.world.version) (update_account id body e)
unfolding update_account
update_account-Same id body e = ground arith

set_account_archived-Same :
    (h : Host) (id : ℕ) (archived : Bool) (e : Engine)
    → Leaves (Same e.world.version) (set_account_archived h id archived e)
unfolding set_account_archived
set_account_archived-Same h id archived e = ground arith

remove_account-Same :
    (id : ℕ) (name : Text) (e : Engine) → Leaves (Same e.world.version) (remove_account id name e)
unfolding remove_account
remove_account-Same id name e = ground arith

create_rate-Same :
    (h : Host) (body : RateCreate) (e : Engine)
    → Leaves (Same e.world.version) (create_rate h body e)
unfolding create_rate
create_rate-Same h body e = ground arith

upsert_price-Same :
    (h : Host) (body : PriceUpsert) (e : Engine)
    → Leaves (Same e.world.version) (upsert_price h body e)
unfolding upsert_price
upsert_price-Same h body e = ground arith

remove_transaction-Same :
    (id : ℕ) (e : Engine) → Leaves (Same e.world.version) (remove_transaction id e)
unfolding remove_transaction
remove_transaction-Same id e = ground arith

create_account-Same :
    (h : Host) (body : AccountCreate) (e : Engine)
    → (create_account h body e).0.version ≡ e.world.version
unfolding create_account place_account open_with
create_account-Same h body e = ground arith

pub perform-version :
    (h : Host) (r : Request) (e : Engine) → (perform h r e).0.version ≡ e.world.version
unfolding perform
perform-version h (account_create body) e = create_account-Same h body e
perform-version h (account_update id body) e =
    settle-Leaves (Same e.world.version) e (update_account id body e) refl
      (update_account-Same id body e)
perform-version h (account_set_archived id archived) e =
    settle-Leaves (Same e.world.version) e (set_account_archived h id archived e) refl
      (set_account_archived-Same h id archived e)
perform-version h (account_remove id name) e =
    settle-Leaves (Same e.world.version) e (remove_account id name e) refl
      (remove_account-Same id name e)
perform-version h (transaction_create body) e =
    settle-Leaves (Same e.world.version) e (create_transaction h body e) refl
      (create_transaction-Same h body e)
perform-version h (transaction_update id body) e =
    settle-Leaves (Same e.world.version) e (update_transaction id body e) refl
      (update_transaction-Same id body e)
perform-version h (transaction_remove id) e =
    settle-Leaves (Same e.world.version) e (remove_transaction id e) refl
      (remove_transaction-Same id e)
perform-version h (valuation_create body) e =
    settle-Leaves (Same e.world.version) e (create_valuation h body e) refl
      (create_valuation-Same h body e)
perform-version h (valuation_remove id) e =
    settle-Leaves (Same e.world.version) e (remove_valuation id e) refl (remove_valuation-Same id e)
perform-version h (transfer_create body) e =
    settle-Leaves (Same e.world.version) e (create_transfer h body e) refl
      (create_transfer-Same h body e)
perform-version h (trade_create body) e =
    settle-Leaves (Same e.world.version) e (create_trade h body e) refl (create_trade-Same h body e)
perform-version h (trade_update id body) e =
    settle-Leaves (Same e.world.version) e (update_trade id body e) refl
      (update_trade-Same id body e)
perform-version h (trade_remove id) e = unfold remove_trade in refl
perform-version h (price_upsert body) e =
    settle-Leaves (Same e.world.version) e (upsert_price h body e) refl (upsert_price-Same h body e)
perform-version h (price_remove id) e = unfold remove_price in refl
perform-version h (rate_create body) e =
    settle-Leaves (Same e.world.version) e (create_rate h body e) refl (create_rate-Same h body e)
perform-version h (rate_remove id) e = unfold remove_rate in refl

-- A write whose callback leaves the world as it was when it throws. The one that may not is the
-- creation of an account with an opening value that cannot be read.
abbrev pub is_ok {ℓ} : {A : Type ℓ} → Result A → Bool
is_ok (ok a) = true
is_ok (err problem) = false

abbrev pub is_atomic : Request → Bool
is_atomic (account_create body) = is_ok (integer body.opening_value_minor)
is_atomic _ = true

-- A callback that throws leaves the world as it was.
abbrev pub Restored : World → World × Result (Unit {0}) → Type 0
Restored w (w', ok done) = Unit
Restored w (w', err problem) = w' ≡ w

settle-Restored : (e : Engine) (m : Result World) → Restored e.world (settle e m)
settle-Restored e (ok w) = tt
settle-Restored e (err problem) = refl

create_account-Restored :
    (h : Host) (body : AccountCreate) (e : Engine)
    → is_ok (integer body.opening_value_minor) ≡ true
    → Restored e.world (create_account h body e)
unfolding create_account place_account
create_account-Restored h body e k = ground arith

pub perform-Restored :
    (h : Host) (r : Request) (e : Engine) → is_atomic r ≡ true → Restored e.world (perform h r e)
unfolding perform
perform-Restored h (account_create body) e k = create_account-Restored h body e k
perform-Restored h _ e k = settle-Restored e _

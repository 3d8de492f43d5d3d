-- ===== src/Adapter/Integrity.antt =====
-- The handlers of `accounts` in adapter.ts and all requests, and the accounts that entries are on.
use wealthboard.Base.{
  ℕ, ◌==◌, ◌≡◌, refl, subst, Bool, not, arith, Bool-cases, Option-cases, inl, inr, [], ◌∷◌, ◌++◌,
  ltb, ltb_ℤ, any, find, Text, same, ℤ, pos, Result, ok, err, invalid, conflict, throw_if,
}
use wealthboard.World.{World, AccountRecord}
use wealthboard.Engine.Ledgers.{Engine}
use wealthboard.Adapter.Entries.{
  Host, create_transaction, update_transaction, remove_transaction, create_valuation,
  remove_valuation, create_transfer, integer, find_account,
}
use wealthboard.Adapter.Accounts.{
  AccountCreate, AccountUpdate, create_account, place_account, check_account, open_with, opening,
  push_account, edit_account, stamp, update_account, set_account_archived, remove_account,
}
use wealthboard.Adapter.Trades.{create_trade, update_trade, remove_trade}
use wealthboard.Adapter.Prices.{
  is_recorded, PriceUpsert, RateCreate, upsert_price, remove_price, create_rate, remove_rate,
}
use wealthboard.Adapter.Leaves.{Leaves, Leaves->>=, settle-Leaves}
use wealthboard.Adapter.Refers.{
  Known, Refers, Known-append, Known-last, Known-update_first, All-keep-Known, Placed-accounts,
  push_txn-Refers,
}
use wealthboard.Adapter.Backend.{
  Request, account_create, account_update, account_set_archived, account_remove, transaction_create,
  transaction_update, transaction_remove, valuation_create, valuation_remove, transfer_create,
  trade_create, trade_update, trade_remove, price_upsert, price_remove, rate_create, rate_remove,
  perform,
}
use wealthboard.Adapter.Placement.{
  create_transaction-Refers, create_transfer-Refers, update_transaction-Refers,
  remove_transaction-Refers, create_valuation-Refers, remove_valuation-Refers, create_trade-Refers,
  update_trade-Refers, remove_trade-Refers,
}

update_account-Refers :
    (id : ℕ) (body : AccountUpdate) (e : Engine)
    → Refers e.world
    → Leaves Refers (update_account id body e)
unfolding update_account
update_account-Refers id body e r = Leaves->>= Refers (find_account e.world id) _ (λ a k.
    Placed-accounts e.world.accounts _ e.world.transactions e.world.valuations
      e.world.position_events
      (Known-update_first (λ x. x.id == id) (edit_account body) (λ x. refl) e.world.accounts) r)

set_account_archived-Refers :
    (h : Host) (id : ℕ) (archived : Bool) (e : Engine)
    → Refers e.world
    → Leaves Refers (set_account_archived h id archived e)
unfolding set_account_archived
set_account_archived-Refers h id archived e r =
    Leaves->>= Refers (find_account e.world id) _ (λ a k.
      Placed-accounts e.world.accounts _ e.world.transactions e.world.valuations
        e.world.position_events
        (Known-update_first (λ x. x.id == id) (stamp archived h.now) (λ x. refl) e.world.accounts)
        r)

remove_account-Refers :
    (id : ℕ) (name : Text) (e : Engine) → Refers e.world → Leaves Refers (remove_account id name e)
unfolding remove_account
remove_account-Refers id name e (x, y, z) = Leaves->>= Refers (find_account e.world id) _ (λ a k.
    Leaves->>= Refers (throw_if (not (same name a.name)) invalid) _ (λ u p. (
      All-keep-Known (λ t. t.account_id) id e.world.accounts e.world.transactions x,
      All-keep-Known (λ t. t.account_id) id e.world.accounts e.world.valuations y,
      All-keep-Known (λ t. t.account_id) id e.world.accounts e.world.position_events z,
    )))

push_account-Refers : (a : AccountRecord) (w : World) → Refers w → Refers (push_account a w)
push_account-Refers a w r =
    Placed-accounts w.accounts (w.accounts ++ a ∷ []) w.transactions w.valuations w.position_events
      (Known-append w.accounts (a ∷ [])) r

open_with-Refers :
    (h : Host) (day : ℕ) (value : ℤ) (w : World)
    → Known w.accounts (h.random_id 0)
    → Refers w
    → Refers (open_with h day value w)
unfolding open_with
open_with-Refers h day value w k r = elim (Bool-cases (ltb_ℤ (pos 0) value)) [
  | inl c ↦ rw c (push_txn-Refers (opening h value day w.seq) w k r)
  | inr c ↦ rw c r
]

checked :
    (h : Host) (body : AccountCreate) (e : Engine)
    → Leaves (λ a. a.id ≡ h.random_id 0) (check_account h body e)
unfolding check_account
checked h body e = ground arith

place_account-Refers :
    (h : Host) (e : Engine) (m : Result AccountRecord) (n : Result ℤ)
    → Leaves (λ a. a.id ≡ h.random_id 0) m
    → Refers e.world
    → Refers (place_account h e m n).0
unfolding place_account
place_account-Refers h e (err problem) n c r = r
place_account-Refers h e (ok a) (err problem) c r = push_account-Refers a e.world r
place_account-Refers h e (ok a) (ok value) c r =
    open_with-Refers h a.opened_at value (push_account a e.world)
      (subst (Known (e.world.accounts ++ a ∷ [])) c (Known-last e.world.accounts a))
      (push_account-Refers a e.world r)

create_account-Refers :
    (h : Host) (body : AccountCreate) (e : Engine)
    → Refers e.world
    → Refers (create_account h body e).0
unfolding create_account
create_account-Refers h body e r =
    place_account-Refers h e (check_account h body e) (integer body.opening_value_minor)
      (checked h body e) r

upsert_price-Refers :
    (h : Host) (body : PriceUpsert) (e : Engine)
    → Refers e.world
    → Leaves Refers (upsert_price h body e)
unfolding upsert_price
upsert_price-Refers h body e r =
    elim (Option-cases (find (λ i. i.id == body.instrument_id) e.world.instruments)) [
      | inl never ↦ rw (Leaves, never) tt
      | inr (i, found) ↦
          rw (Leaves, found)
            (Leaves->>= Refers (throw_if (ltb e.today body.effective_date) invalid) _ (λ u p. r))
    ]

create_rate-Refers :
    (h : Host) (body : RateCreate) (e : Engine)
    → Refers e.world
    → Leaves Refers (create_rate h body e)
unfolding create_rate
create_rate-Refers h body e r =
    Leaves->>= Refers (throw_if (same body.base_currency body.quote_currency) invalid) _ (λ u1 p1.
      Leaves->>= Refers (throw_if (ltb e.today body.effective_date) invalid) _ (λ u2 p2.
        Leaves->>= Refers (throw_if (any (is_recorded body) e.world.rates) conflict) _
          (λ u3 p3. r)))

-- Whatever is asked for, and whether it is done or refused: if every transaction, valuation and
-- trade of a world is on an account of it, then so it is in the world that the callback leaves.
pub perform-Refers :
    (h : Host) (r : Request) (e : Engine) → Refers e.world → Refers (perform h r e).0
unfolding perform
perform-Refers h (account_create body) e k = create_account-Refers h body e k
perform-Refers h (account_update id body) e k =
    settle-Leaves Refers e (update_account id body e) k (update_account-Refers id body e k)
perform-Refers h (account_set_archived id archived) e k =
    settle-Leaves Refers e (set_account_archived h id archived e) k
      (set_account_archived-Refers h id archived e k)
perform-Refers h (account_remove id name) e k =
    settle-Leaves Refers e (remove_account id name e) k (remove_account-Refers id name e k)
perform-Refers h (transaction_create body) e k =
    settle-Leaves Refers e (create_transaction h body e) k (create_transaction-Refers h body e k)
perform-Refers h (transaction_update id body) e k =
    settle-Leaves Refers e (update_transaction id body e) k (update_transaction-Refers id body e k)
perform-Refers h (transaction_remove id) e k =
    settle-Leaves Refers e (remove_transaction id e) k (remove_transaction-Refers id e k)
perform-Refers h (valuation_create body) e k =
    settle-Leaves Refers e (create_valuation h body e) k (create_valuation-Refers h body e k)
perform-Refers h (valuation_remove id) e k =
    settle-Leaves Refers e (remove_valuation id e) k (remove_valuation-Refers id e k)
perform-Refers h (transfer_create body) e k =
    settle-Leaves Refers e (create_transfer h body e) k (create_transfer-Refers h body e k)
perform-Refers h (trade_create body) e k =
    settle-Leaves Refers e (create_trade h body e) k (create_trade-Refers h body e k)
perform-Refers h (trade_update id body) e k =
    settle-Leaves Refers e (update_trade id body e) k (update_trade-Refers id body e k)
perform-Refers h (trade_remove id) e k =
    settle-Leaves Refers e (remove_trade id e) k (remove_trade-Refers id e k)
perform-Refers h (price_upsert body) e k =
    settle-Leaves Refers e (upsert_price h body e) k (upsert_price-Refers h body e k)
perform-Refers h (rate_create body) e k =
    settle-Leaves Refers e (create_rate h body e) k (create_rate-Refers h body e k)
perform-Refers h (price_remove id) e k = unfold remove_price in k
perform-Refers h (rate_remove id) e k = unfold remove_rate in k

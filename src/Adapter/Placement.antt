-- ===== src/Adapter/Placement.antt =====
-- The handlers of transactions, valuations, transfers and trades in adapter.ts, and the accounts that
-- entries are on.
use wealthboard.Base.{
  ℕ, ◌==◌, ◌≡◌, refl, sym, subst, not, ◌&&◌, Option-cases, inl, inr, [], ◌∷◌, ltb, ltb_ℤ, any, find,
  pos, Result, ok, err, invalid, insufficient, not_found, throw_if, leb_ℤ, codes, get_key,
}
use wealthboard.Decimal.{to_scaled, mul_to_minor}
use wealthboard.Engine.Ledgers.{Engine}
use wealthboard.Engine.Order.{All-keep}
use wealthboard.Engine.Values.{quantities_at, or_zero}
use wealthboard.Adapter.Entries.{
  Host, TransactionCreate, TransactionUpdate, ValuationCreate, TransferCreate, create_transaction,
  update_transaction, edit_transaction, remove_transaction, create_valuation, new_valuation, stays,
  remove_valuation, create_transfer, integer, is_positions, find_account, push_txn, new_transaction,
}
use wealthboard.Adapter.Accounts.{or_default}
use wealthboard.Adapter.Trades.{
  TradeCreate, TradeUpdate, create_trade, is_sale, new_trade, cash_of, edit_trade, update_trade,
  remove_trade, find_instrument, gross_of, fee_of,
}
use wealthboard.Adapter.Transfer.{create_transfer-TransferOf}
use wealthboard.Adapter.Withdrawal.{create_transaction-TransactionOf}
use wealthboard.Adapter.Leaves.{Leaves, Leaves->>=}
use wealthboard.Adapter.Refers.{
  Known, Refers, All-append, All-update_first, find_account-Known, push_txn-Refers,
}

-- A success has the property, if every success has.
leaves {ℓ} : {A : Type ℓ} (P : A → Type 0) (m : Result A) → ((a : A) → m ≡ ok a → P a) → Leaves P m
leaves P (ok a) h = h a refl
leaves P (err problem) h = tt

pub create_transaction-Refers :
    (h : Host) (body : TransactionCreate) (e : Engine)
    → Refers e.world
    → Leaves Refers (create_transaction h body e)
create_transaction-Refers h body e r = leaves Refers (create_transaction h body e) (λ w k.
    let (a, amount, found, day, covered, ew) = create_transaction-TransactionOf h body e k in
    subst Refers (sym ew) (
      push_txn-Refers (new_transaction h e.world a amount body) e.world
        (find_account-Known e.world body.account_id found) r))

pub create_transfer-Refers :
    (h : Host) (body : TransferCreate) (e : Engine)
    → Refers e.world
    → Leaves Refers (create_transfer h body e)
create_transfer-Refers h body e r = leaves Refers (create_transfer h body e) (λ w k.
    let (from, to, source, dest, different, f, t, s, d, day, sent, received, es, er, ew) =
      create_transfer-TransferOf h body e k in
    let on_from : Known e.world.accounts sent.account_id =
      subst (λ x. Known e.world.accounts x.account_id) (sym es)
        (find_account-Known e.world body.from_account_id f) in
    let on_to : Known e.world.accounts received.account_id =
      subst (λ x. Known e.world.accounts x.account_id) (sym er)
        (find_account-Known e.world body.to_account_id t) in
    subst Refers (sym ew) (
      push_txn-Refers received (push_txn sent e.world) on_to
        (push_txn-Refers sent e.world on_from r)))

pub update_transaction-Refers :
    (id : ℕ) (body : TransactionUpdate) (e : Engine)
    → Refers e.world
    → Leaves Refers (update_transaction id body e)
unfolding update_transaction
update_transaction-Refers id body e (a, b, c) =
    Leaves->>= Refers (throw_if (not (any (λ t. t.id == id) e.world.transactions)) not_found) _
      (λ u p. Leaves->>= Refers (integer body.amount_minor) _ (λ amount q. (
        All-update_first (λ t. Known e.world.accounts t.account_id) (λ t. t.id == id)
            (edit_transaction body amount) (λ t k. k) e.world.transactions a,
        b,
        c,
      )))

pub remove_transaction-Refers :
    (id : ℕ) (e : Engine) → Refers e.world → Leaves Refers (remove_transaction id e)
unfolding remove_transaction
remove_transaction-Refers id e (a, b, c) =
    elim (Option-cases (find (λ t. t.id == id) e.world.transactions)) [
      | inl never ↦ rw (Leaves, never) tt
      | inr (t, found) ↦
          rw (Leaves, found)
            (
              All-keep (λ x. Known e.world.accounts x.account_id) (stays id t.transfer_group_id)
                  e.world.transactions a,
              b,
              c,
            )
    ]

pub create_valuation-Refers :
    (h : Host) (body : ValuationCreate) (e : Engine)
    → Refers e.world
    → Leaves Refers (create_valuation h body e)
unfolding create_valuation
create_valuation-Refers h body e (x, y, z) =
    Leaves->>= Refers (find_account e.world body.account_id) _ (λ a found.
      Leaves->>= Refers (throw_if (is_positions a.tracking_mode) invalid) _ (λ u p.
        Leaves->>= Refers (throw_if (ltb e.today body.valuation_date) invalid) _ (λ u' p'.
          Leaves->>= Refers (integer body.value_minor) _ (λ value q. (
            x,
            All-append (λ v. Known e.world.accounts v.account_id) e.world.valuations
                (new_valuation h e.world a value body ∷ []) y
                (find_account-Known e.world body.account_id found, tt),
            z,
          )))))

pub remove_valuation-Refers :
    (id : ℕ) (e : Engine) → Refers e.world → Leaves Refers (remove_valuation id e)
unfolding remove_valuation
remove_valuation-Refers id e (x, y, z) =
    Leaves->>= Refers (throw_if (not (any (λ v. v.id == id) e.world.valuations)) not_found) _
      (λ u p. (
        x,
        All-keep (λ v. Known e.world.accounts v.account_id) (λ v. not (v.id == id))
            e.world.valuations y,
        z,
      ))

pub create_trade-Refers :
    (h : Host) (body : TradeCreate) (e : Engine)
    → Refers e.world
    → Leaves Refers (create_trade h body e)
unfolding create_trade
create_trade-Refers h body e (x, y, z) =
    Leaves->>= Refers (find_account e.world body.account_id) _ (λ a found.
      Leaves->>= Refers (throw_if (not (is_positions a.tracking_mode)) invalid) _ (λ u1 p1.
        Leaves->>= Refers (find_instrument e.world body.instrument_id) _ (λ i p2.
          Leaves->>= Refers (throw_if (ltb e.today body.trade_date) invalid) _ (λ u3 p3.
            Leaves->>= Refers (to_scaled body.quantity) _ (λ quantity p4.
              Leaves->>= Refers (throw_if (leb_ℤ quantity (pos 0)) invalid) _ (λ u5 p5.
                Leaves->>= Refers (quantities_at e a.id body.trade_date) _ (λ quantities p6.
                  Leaves->>= Refers
                    (throw_if
                      (is_sale body.kind
                        && ltb_ℤ (or_zero (get_key (λ x y. x == y) i.id quantities)) quantity)
                      insufficient)
                    _
                    (λ u7 p7.
                      Leaves->>= Refers
                        (mul_to_minor body.quantity (or_default body.unit_price (codes "0"))
                          i.quote_currency)
                        _
                        (λ native p8.
                          Leaves->>= Refers
                            (gross_of e a i body.applied_exchange_rate body.trade_date native) _
                            (λ gross p9.
                              Leaves->>= Refers (fee_of body.fee_amount a.currency) _ (λ fee p10. (
                                x,
                                y,
                                All-append (λ p. Known e.world.accounts p.account_id)
                                    e.world.position_events
                                    (new_trade h e.world a i fee (cash_of body.kind gross fee) body
                                      ∷ [])
                                    z (find_account-Known e.world body.account_id found, tt),
                              ))))))))))))

pub update_trade-Refers :
    (id : ℕ) (body : TradeUpdate) (e : Engine)
    → Refers e.world
    → Leaves Refers (update_trade id body e)
unfolding update_trade
update_trade-Refers id body e (x, y, z) =
    Leaves->>= Refers (throw_if (not (any (λ p. p.id == id) e.world.position_events)) not_found) _
      (λ u k. (
        x,
        y,
        All-update_first (λ p. Known e.world.accounts p.account_id) (λ p. p.id == id)
            (edit_trade body) (λ p k'. k') e.world.position_events z,
      ))

pub remove_trade-Refers : (id : ℕ) (e : Engine) → Refers e.world → Leaves Refers (remove_trade id e)
unfolding remove_trade
remove_trade-Refers id e (x, y, z) = (
  x,
  y,
  All-keep (λ p. Known e.world.accounts p.account_id) (λ p. not (p.id == id))
      e.world.position_events z,
)

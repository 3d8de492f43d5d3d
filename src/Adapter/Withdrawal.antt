-- ===== src/Adapter/Withdrawal.antt =====
-- `transactions.create` of adapter.ts for a withdrawal.
use wealthboard.Base.{
  ℕ, ◌≤◌, ◌≡◌, refl, sym, ap, ◌∙◌, true, false, ◌&&◌, arith, ltb, leb, ℤ, pos, neg, ◌+ℤ◌, ◌≤ℤ◌,
  ltb_ℤ, int_laws, ok, invalid, insufficient, throw_if, >>=-eq-ok, throw_if-passes, ok-injective,
}
use wealthboard.World.{TransactionType, TxnRecord, AccountRecord, World, withdrawal}
use wealthboard.Engine.Ledgers.{Engine, txn_effect, lowers}
use wealthboard.Engine.Values.{cash_at}
use wealthboard.Engine.Cash.{txn_share}
use wealthboard.Adapter.Entries.{
  Host, read_amount, find_account, push_txn, TransactionCreate, create_transaction, new_transaction,
  is_positions, is_withdrawal, is_some,
}
use wealthboard.Adapter.Found.{next, cash_at-push_txn, find_account-found, in_time, ==_refl}

-- What a new transaction that succeeds has found and written.
abbrev pub TransactionOf : Host → TransactionCreate → Engine → World → Type 0
TransactionOf h body e w =
    (a : AccountRecord) × (amount : ℤ) × (find_account e.world body.account_id ≡ ok a)
    × (body.transaction_date ≤ e.today)
    × ((is_positions a.tracking_mode
          && is_withdrawal body.kind
          && ltb_ℤ (cash_at e a.id body.transaction_date) amount)
        ≡ false)
    × (w ≡ push_txn (new_transaction h e.world a amount body) e.world)

pub create_transaction-TransactionOf :
    (h : Host) (body : TransactionCreate) (e : Engine) {w : World}
    → create_transaction h body e ≡ ok w
    → TransactionOf h body e w
unfolding create_transaction
create_transaction-TransactionOf h body e {w} k =
    let (a, p0, k0) = >>=-eq-ok (find_account e.world body.account_id) _ k in
    let (u1, p1, k1) = >>=-eq-ok (throw_if (is_some a.archived_at) invalid) _ k0 in
    let (u2, p2, k2) = >>=-eq-ok (throw_if (ltb e.today body.transaction_date) invalid) _ k1 in
    let (amount, p3, k3) = >>=-eq-ok (read_amount body.kind body.amount_minor) _ k2 in
    let (u4, p4, k4) =
      >>=-eq-ok
        (throw_if
          (is_positions a.tracking_mode
            && is_withdrawal body.kind
            && ltb_ℤ (cash_at e a.id body.transaction_date) amount)
          insufficient)
        _ k3 in
    (
      a,
      amount,
      p0,
      in_time (throw_if-passes (ltb e.today body.transaction_date) invalid p2),
      throw_if-passes
          (is_positions a.tracking_mode
            && is_withdrawal body.kind
            && ltb_ℤ (cash_at e a.id body.transaction_date) amount)
          insufficient p4,
      sym (ok-injective k4),
    )

withdrawal_lowers : (k : TransactionType) → is_withdrawal k ≡ true → lowers k ≡ true
withdrawal_lowers withdrawal h = refl
withdrawal_lowers _ h = absurd (ground arith)

leb_refl : (a : ℕ) → leb a a ≡ true
leb_refl a = ground arith

withdrawn :
    (id day : ℕ) (t : TxnRecord)
    → t.account_id ≡ id
    → t.date ≡ day
    → is_withdrawal t.kind ≡ true
    → txn_share id day t ≡ neg t.amount_minor
unfolding txn_effect
withdrawn id day t i d k = rw (i, d, ==_refl id, leb_refl day, withdrawal_lowers t.kind k) refl

covers : (cash amount : ℤ) → ltb_ℤ cash amount ≡ false → amount ≤ℤ cash
covers cash amount h = ground arith

left : (cash amount : ℤ) → ltb_ℤ cash amount ≡ false → pos 0 ≤ℤ cash +ℤ neg amount
left cash amount h = omega (int_laws, covers cash amount h)

-- A withdrawal that succeeds on an account that holds securities leaves its cash on that day at zero
-- or above.
pub create_transaction_covered :
    (h : Host) (body : TransactionCreate) (e : Engine) (w : World) (a : AccountRecord)
    → find_account e.world body.account_id ≡ ok a
    → is_positions a.tracking_mode ≡ true
    → is_withdrawal body.kind ≡ true
    → create_transaction h body e ≡ ok w
    → pos 0 ≤ℤ cash_at (next e w) body.account_id body.transaction_date
create_transaction_covered h body e w a f m wd k =
    let (a', amount, found, day, covered, ew) = create_transaction-TransactionOf h body e k in
    let ea : a' ≡ a = ok-injective (sym found ∙ f) in
    let named : a'.id ≡ body.account_id = (find_account-found e.world body.account_id found).0 in
    let t = new_transaction h e.world a' amount body in
    let positions' : is_positions a'.tracking_mode ≡ true =
      ap (λ x. is_positions x.tracking_mode) ea ∙ m in
    rw
      (
        ew,
        cash_at-push_txn e t body.account_id body.transaction_date,
        withdrawn body.account_id body.transaction_date t named refl wd,
      )
      (left (cash_at e body.account_id body.transaction_date) amount
        (rw (positions', wd, named) at covered))

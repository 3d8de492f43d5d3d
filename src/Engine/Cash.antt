-- ===== src/Engine/Cash.antt =====
-- `cashAt` of engine.ts, the sums in its loops, and the order of the ledgers.
use wealthboard.Base.{
  ℕ, ◌≡◌, sym, ap₂, ◌∙◌, Bool, true, ◌&&◌, arith, Bool-cases, inl, inr, List, [], ◌∷◌, ltb, leb,
  ◌==◌, if◌then◌else◌, keep, sort_by, All, ℤ, pos, ◌+ℤ◌, int_laws, +ℤ-zero, zero-+ℤ, +ℤ_assoc,
}
use wealthboard.World.{TxnRecord, ValuationRecord, PositionEventRecord}
use wealthboard.Engine.Ledgers.{
  Engine, txn_before, valuation_before, event_before, txns, valuations, events,
}
use wealthboard.Engine.Values.{sum_until, effect, cash_effect, cash_at}
use wealthboard.Engine.Order.{
  sum_over, Ascending, All-map, sort_by-Ascending, sum_over-sort_by, sum_over-keep, sum_over-zero,
  sum_over_same, KeyLe, key_before-KeyLe, KeyLe-trans,
}

-- A loop that breaks at the first late element has met every element that is not late, if what
-- follows a late one is late.
module _ {ℓ κ} {A : Type ℓ} (R : A → A → Type κ) (late : A → Bool) (f : A → ℤ)
    (stays_late : (a b : A) → R a b → late a ≡ true → late b ≡ true) where
  abbrev timely : A → ℤ
  timely x = if late x then pos 0 else f x

  late-zero : (x : A) → late x ≡ true → timely x ≡ pos 0
  late-zero x e = rw e

  sum_until-sum_over :
      (acc : ℤ) (xs : List A)
      → Ascending R xs
      → sum_until late f acc xs ≡ acc +ℤ sum_over (λ x. if late x then pos 0 else f x) xs
  unfolding sum_until sum_over
  sum_until-sum_over acc [] h = sym (+ℤ-zero acc)
  sum_until-sum_over acc (x ∷ xs) h = elim (Bool-cases (late x)) [
    | inl e ↦ rw e (
        rw
          (sum_over-zero timely xs (
            All-map (R x) (λ y. timely y ≡ pos 0) (λ y r. late-zero y (stays_late x y r e)) xs h.0))
          (omega int_laws))
    | inr e ↦
        rw e (sum_until-sum_over (acc +ℤ f x) xs h.1 ∙ +ℤ_assoc acc (f x) (sum_over timely xs))
  ]

abbrev pub TxnLe : TxnRecord → TxnRecord → Type 0
TxnLe a b = KeyLe a.date a.seq b.date b.seq

abbrev pub ValuationLe : ValuationRecord → ValuationRecord → Type 0
ValuationLe a b = KeyLe a.date a.seq b.date b.seq

abbrev pub EventLe : PositionEventRecord → PositionEventRecord → Type 0
EventLe a b = KeyLe a.date a.seq b.date b.seq

-- The constructor's sorts put each ledger in the order of its dates and sequence numbers.
pub txns-Ascending : (e : Engine) (id : ℕ) → Ascending TxnLe (txns e id)
unfolding txns
txns-Ascending e id =
    sort_by-Ascending TxnLe txn_before (λ a b. key_before-KeyLe a.date a.seq b.date b.seq)
      (λ a b h. h) (λ a b c. KeyLe-trans a.date a.seq b.date b.seq c.date c.seq)
      (keep (λ t. t.account_id == id) e.world.transactions)

pub valuations-Ascending : (e : Engine) (id : ℕ) → Ascending ValuationLe (valuations e id)
unfolding valuations
valuations-Ascending e id =
    sort_by-Ascending ValuationLe valuation_before
      (λ a b. key_before-KeyLe a.date a.seq b.date b.seq) (λ a b h. h)
      (λ a b c. KeyLe-trans a.date a.seq b.date b.seq c.date c.seq)
      (keep (λ v. v.account_id == id) e.world.valuations)

pub events-Ascending : (e : Engine) (id : ℕ) → Ascending EventLe (events e id)
unfolding events
events-Ascending e id =
    sort_by-Ascending EventLe event_before (λ a b. key_before-KeyLe a.date a.seq b.date b.seq)
      (λ a b h. h) (λ a b c. KeyLe-trans a.date a.seq b.date b.seq c.date c.seq)
      (keep (λ p. p.account_id == id) e.world.position_events)

late-txn :
    (date : ℕ) (a b : TxnRecord) → TxnLe a b → ltb date a.date ≡ true → ltb date b.date ≡ true
late-txn date a b h k = ground arith

late-event :
    (date : ℕ) (a b : PositionEventRecord)
    → EventLe a b
    → ltb date a.date ≡ true
    → ltb date b.date ≡ true
late-event date a b h k = ground arith

-- What an entry of the world adds to an account's cash on a date.
abbrev pub txn_share : ℕ → ℕ → TxnRecord → ℤ
txn_share account_id date t =
    if t.account_id == account_id && leb t.date date then effect t else pos 0

abbrev pub event_share : ℕ → ℕ → PositionEventRecord → ℤ
event_share account_id date p =
    if p.account_id == account_id && leb p.date date then p.cash_effect_minor else pos 0

-- A sorted part of the world, cut at a date, has the sum of the world's entries that it keeps.
sorted_part {ℓ} :
    {A : Type ℓ} (before : A → A → Bool) (own : A → Bool) (date_of : A → ℕ) (f : A → ℤ) (date : ℕ)
    (xs : List A)
    → sum_over (λ x. if ltb date (date_of x) then pos 0 else f x) (sort_by before (keep own xs))
      ≡ sum_over (λ x. if own x && leb (date_of x) date then f x else pos 0) xs
sorted_part {A} before own date_of f date xs =
    let g = λ (x : A). if ltb date (date_of x) then pos 0 else f x in
    sum_over-sort_by g before (keep own xs)
    ∙ sum_over-keep g own xs
    ∙ sum_over_same (λ x. if own x then g x else pos 0)
        (λ x. if own x && leb (date_of x) date then f x else pos 0) xs (each xs)
  where
    each :
        (ys : List A)
        → All
            (λ x.
              (if own x then (if ltb date (date_of x) then pos 0 else f x) else pos 0)
              ≡ (if own x && leb (date_of x) date then f x else pos 0))
            ys
    each [] = tt
    each (y ∷ ys) = (ground arith, each ys)

-- The cash of an account on a date is the sum of the effects of all the world's entries for the
-- account up to that date, in whatever order the world holds them.
pub cash_at-sum :
    (e : Engine) (account_id date : ℕ)
    → cash_at e account_id date
      ≡ sum_over (txn_share account_id date) e.world.transactions
        +ℤ sum_over (event_share account_id date) e.world.position_events
unfolding cash_at txns events
cash_at-sum e account_id date =
    sum_until-sum_over EventLe (λ p. ltb date p.date) cash_effect (late-event date) _
      (events e account_id) (events-Ascending e account_id)
    ∙ ap₂ ◌+ℤ◌
        (sum_until-sum_over TxnLe (λ t. ltb date t.date) effect (late-txn date) (pos 0)
            (txns e account_id) (txns-Ascending e account_id)
          ∙ zero-+ℤ _
          ∙ sorted_part txn_before (λ t. t.account_id == account_id) (λ t. t.date) effect date
              e.world.transactions)
        (sorted_part event_before (λ p. p.account_id == account_id) (λ p. p.date) cash_effect date
          e.world.position_events)

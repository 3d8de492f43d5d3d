-- ===== src/Adapter/Found.antt =====
-- The checks that the handlers of adapter.ts share, and `cashAt` after a new transaction.
use wealthboard.Base.{
  ℕ, ◌≤◌, ◌≡◌, ◌∙◌, subst, Bool, true, false, not, arith, Bool-cases, Option-cases, inl, inr, some,
  List, [], ◌∷◌, ◌++◌, ltb, ◌==◌, find, ℤ, pos, ◌+ℤ◌, ◌<ℤ◌, leb_ℤ, int_laws, Text, ok, invalid,
  throw_if, >>=-eq-ok, throw_if-passes, Member, ok-injective,
}
use wealthboard.World.{TxnRecord, AccountRecord, World}
use wealthboard.Engine.Ledgers.{Engine}
use wealthboard.Engine.Values.{cash_at}
use wealthboard.Engine.Order.{sum_over}
use wealthboard.Engine.Cash.{txn_share, cash_at-sum}
use wealthboard.Adapter.Entries.{positive_minor, integer, find_account, push_txn, is_minor_text}

-- The engine of a world that a write leaves on the same day.
abbrev pub next : Engine → World → Engine
next e w = record e { world = w }

pub sum_over-append {ℓ} :
    {A : Type ℓ} (f : A → ℤ) (xs ys : List A)
    → sum_over f (xs ++ ys) ≡ sum_over f xs +ℤ sum_over f ys
unfolding sum_over
sum_over-append f [] ys = omega int_laws
sum_over-append f (x ∷ xs) ys = rw (sum_over-append f xs ys) (omega int_laws)

-- A new transaction adds its share to the cash of its account from its date on.
pub cash_at-push_txn :
    (e : Engine) (t : TxnRecord) (id date : ℕ)
    → cash_at (next e (push_txn t e.world)) id date ≡ cash_at e id date +ℤ txn_share id date t
unfolding sum_over
cash_at-push_txn e t id date =
    cash_at-sum (next e (push_txn t e.world)) id date
    ∙ rw (cash_at-sum e id date, sum_over-append (txn_share id date) e.world.transactions (t ∷ []))
        (omega int_laws)

pub find-found {ℓ} :
    {A : Type ℓ} (test : A → Bool) (xs : List A) {a : A}
    → find test xs ≡ some a
    → (test a ≡ true) × Member a xs
find-found test [] h = cc
find-found test (x ∷ xs) h = elim (Bool-cases (test x)) [
  | inl fits ↦ let h' = rw fits at h in (cc, inl cc)
  | inr other ↦ let h' = rw other at h in let (fits, m) = find-found test xs h' in (fits, inr m)
]

pub find_account-found :
    (w : World) (id : ℕ) {a : AccountRecord}
    → find_account w id ≡ ok a
    → (a.id ≡ id) × Member a w.accounts
unfolding find_account
find_account-found w id h = elim (Option-cases (find (λ a. a.id == id) w.accounts)) [
  | inl never ↦ let h' = rw (find_account, never) at h in cc
  | inr (a, found) ↦
      let h' = rw (find_account, found) at h in
      let same_account : a ≡ _ = ok-injective h' in
      let (fits, m) = find-found (λ x. x.id == id) w.accounts found in
      subst (λ x. (x.id ≡ id) × Member x w.accounts) same_account (ground arith, m)
]

pub above : (n : ℤ) → leb_ℤ n (pos 0) ≡ false → pos 0 <ℤ n
above n h = ground arith

pub positive_minor-positive : (s : Text) {v : ℤ} → positive_minor s ≡ ok v → pos 0 <ℤ v
unfolding positive_minor
positive_minor-positive s {v} h =
    let (u, p, q) = >>=-eq-ok (throw_if (not (is_minor_text s)) invalid) _ h in
    let (n, p', q') = >>=-eq-ok (integer s) _ q in
    let (u', low, r) = >>=-eq-ok (throw_if (leb_ℤ n (pos 0)) invalid) _ q' in
    subst (λ (x : ℤ). pos 0 <ℤ x) (ok-injective r)
      (above n (throw_if-passes (leb_ℤ n (pos 0)) invalid low))

pub in_time : {a b : ℕ} → ltb a b ≡ false → b ≤ a
in_time h = ground arith

pub ==_refl : (a : ℕ) → (a == a) ≡ true
==_refl a = ground arith

pub ==_sym : (a b : ℕ) → (a == b) ≡ false → (b == a) ≡ false
==_sym a b h = ground arith

-- ===== src/Engine/Worth.antt =====
-- `totalsAt` of engine.ts, and what each account adds to it.
use wealthboard.Base.{
  ℕ, ◌≡◌, refl, sym, ap, ◌∙◌, Bool, true, false, not, ◌&&◌, ◌||◌, Bool-cases, Option-cases, inl,
  inr, Option, none, some, List, [], ◌∷◌, every, ℤ, pos, neg, ◌+ℤ◌, ◌-ℤ◌, int_laws, +ℤ-zero,
  zero-+ℤ, Result, ok, err, for_each, >>=-eq-ok, ok-injective,
}
use wealthboard.World.{AccountRecord, Category}
use wealthboard.Engine.Ledgers.{Engine}
use wealthboard.Engine.Lookup.{category, is_liability_category}
use wealthboard.Engine.Values.{BaseValue, base_value_at}
use wealthboard.Engine.Totals.{
  Tally, Totals, add_value, add_account, empty_tally, totals_at, active_at,
}
use wealthboard.Engine.Order.{sum_over}

-- What an account counts for: nothing if it is left out or if it has no value in the base currency.
abbrev pub worth_of : Bool → Bool → Option ℤ → ℤ
worth_of true owes v = pos 0
worth_of false owes none = pos 0
worth_of false true (some v) = neg v
worth_of false false (some v) = v

abbrev pub value_of : Result BaseValue → Option ℤ
value_of (ok b) = b.value
value_of (err problem) = none

abbrev pub known_of : Result BaseValue → Bool
known_of (ok b) = b.complete
known_of (err problem) = false

-- The account is not in the net worth of the date.
abbrev pub is_left_out : ℕ → AccountRecord → Bool
is_left_out date a = not a.is_included_in_net_worth || not (active_at a date)

abbrev pub worth : Engine → ℕ → AccountRecord → ℤ
worth e date a =
    worth_of (is_left_out date a) (is_liability_category (category e a.category_id))
      (value_of (base_value_at e a.id date))

-- A loop that adds to a measure adds the sum.
for_each-sum_over {ℓ κ} :
    {S : Type ℓ} {A : Type κ} (body : S → A → Result S) (measure : S → ℤ) (f : A → ℤ)
    → ((s : S) (a : A) (s' : S) → body s a ≡ ok s' → measure s' ≡ measure s +ℤ f a)
    → (xs : List A) (s s' : S) → for_each body s xs ≡ ok s'
    → measure s' ≡ measure s +ℤ sum_over f xs
unfolding sum_over
for_each-sum_over body measure f step [] s s' h = ap measure (sym (ok-injective h)) ∙ omega int_laws
for_each-sum_over body measure f step (x ∷ xs) s s' h =
    let (t, p, q) = >>=-eq-ok (body s x) (λ u. for_each body u xs) h in
    for_each-sum_over body measure f step xs t s' q ∙ rw (step s x t p) (omega int_laws)

net : Tally → ℤ
net s = s.assets -ℤ s.liabilities

add_value-worth :
    (c : Option Category) (s : Tally) (b : BaseValue)
    → net (add_value c s b) ≡ net s +ℤ worth_of false (is_liability_category c) b.value
unfolding add_value net
add_value-worth c s b = elim (Option-cases b.value) [
  | inl n ↦ rw n (omega int_laws)
  | inr (v, h) ↦ rw h (elim (Bool-cases (is_liability_category c)) [
    | inl k ↦ rw k (omega int_laws)
    | inr k ↦ rw k (omega int_laws)
  ])
]

and_true : (b : Bool) → (b && true) ≡ b
and_true true = refl
and_true false = refl

and_assoc : (a b c : Bool) → ((a && b) && c) ≡ (a && (b && c))
and_assoc true b c = refl
and_assoc false b c = refl

add_account-worth :
    (e : Engine) (date : ℕ) (s : Tally) (a : AccountRecord) (s' : Tally)
    → add_account e date s a ≡ ok s'
    → net s' ≡ net s +ℤ worth e date a
unfolding add_account
add_account-worth e date s a s' h = elim (Bool-cases (is_left_out date a)) [
  | inl k ↦
      let h' = rw (add_account, k) at h in
      rw k (ap net (sym (ok-injective h')) ∙ sym (+ℤ-zero (net s)))
  | inr k ↦
      let h' = rw (add_account, k) at h in
      let (b, p, q) = >>=-eq-ok (base_value_at e a.id date) _ h' in
      rw (k, p) (ap net (sym (ok-injective q)) ∙ add_value-worth (category e a.category_id) s b)
]

-- The net worth of a date, when the totals are computed, is the sum of what the accounts count for:
-- an account that is included and active counts for its value in the base currency, a liability
-- against it, and any other account, or one without such a value, for nothing.
pub totals_at-worth :
    (e : Engine) (date : ℕ) (t : Totals)
    → totals_at e date ≡ ok t
    → t.net_worth ≡ sum_over (worth e date) e.world.accounts
unfolding totals_at net ◌+ℤ◌ sum_over ◌-ℤ◌
totals_at-worth e date t h =
    let (s, p, q) = >>=-eq-ok (for_each (add_account e date) empty_tally e.world.accounts) _ h in
    ap (λ (x : Totals). x.net_worth) (sym (ok-injective q))
    ∙ for_each-sum_over (add_account e date) net (worth e date) (add_account-worth e date)
        e.world.accounts empty_tally s p
    ∙ zero-+ℤ (sum_over (worth e date) e.world.accounts)

-- The account is left out, or its value is known in full.
abbrev pub is_known : Engine → ℕ → AccountRecord → Bool
is_known e date a = is_left_out date a || known_of (base_value_at e a.id date)

add_value-complete :
    (c : Option Category) (s : Tally) (b : BaseValue)
    → (add_value c s b).complete ≡ (s.complete && b.complete)
unfolding add_value
add_value-complete c s b = elim (Option-cases b.value) [
  | inl n ↦ rw n refl
  | inr (v, h) ↦
      rw h (elim (Bool-cases (is_liability_category c)) [ inl k ↦ rw k refl | inr k ↦ rw k refl ])
]

add_account-complete :
    (e : Engine) (date : ℕ) (s : Tally) (a : AccountRecord) (s' : Tally)
    → add_account e date s a ≡ ok s'
    → s'.complete ≡ (s.complete && is_known e date a)
unfolding add_account
add_account-complete e date s a s' h = elim (Bool-cases (is_left_out date a)) [
  | inl k ↦
      let h' = rw (add_account, k) at h in
      rw k (ap (λ (x : Tally). x.complete) (sym (ok-injective h')) ∙ sym (and_true s.complete))
  | inr k ↦
      let h' = rw (add_account, k) at h in
      let (b, p, q) = >>=-eq-ok (base_value_at e a.id date) _ h' in
      rw (k, p)
        (ap (λ (x : Tally). x.complete) (sym (ok-injective q))
          ∙ add_value-complete (category e a.category_id) s b)
]

all_known :
    (e : Engine) (date : ℕ) (xs : List AccountRecord) (s s' : Tally)
    → for_each (add_account e date) s xs ≡ ok s'
    → s'.complete ≡ (s.complete && every (is_known e date) xs)
all_known e date [] s s' h =
    ap (λ (x : Tally). x.complete) (sym (ok-injective h)) ∙ sym (and_true s.complete)
all_known e date (x ∷ xs) s s' h =
    let (t, p, q) =
      >>=-eq-ok (add_account e date s x) (λ u. for_each (add_account e date) u xs) h in
    all_known e date xs t s' q
    ∙ ap (λ b. b && every (is_known e date) xs) (add_account-complete e date s x t p)
    ∙ and_assoc s.complete (is_known e date x) (every (is_known e date) xs)

-- The totals of a date, when they are computed, are marked complete exactly when the value of every
-- account that is included and active is known in full, in the base currency.
pub totals_at-complete :
    (e : Engine) (date : ℕ) (t : Totals)
    → totals_at e date ≡ ok t
    → t.complete ≡ every (is_known e date) e.world.accounts
unfolding totals_at
totals_at-complete e date t h =
    let (s, p, q) = >>=-eq-ok (for_each (add_account e date) empty_tally e.world.accounts) _ h in
    ap (λ (x : Totals). x.complete) (sym (ok-injective q))
    ∙ all_known e date e.world.accounts empty_tally s p

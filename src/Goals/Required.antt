-- ===== src/Goals/Required.antt =====
-- `requiredMonthly` of engine.ts: its search, and its result.
use native.Mathlib.Nat.{one-le-pow, div-mul-le_self, lt-div-mul-add}
use wealthboard.Base.{
  ℕ, zero, suc, ◌+◌, ◌-◌, ◌*◌, ◌/◌, ◌^◌, ◌≤◌, ◌<◌, ◌≡◌, refl, sym, ap, ◌∙◌, subst, Bool, true,
  false, arith, Bool-cases, ◌⊎◌, inl, inr, ℤ, pos, negsuc, magnitude, pos_part, neg_part, ◌+ℤ◌, leb,
  leb_ℤ, ◌==◌, ◌-ℤ◌, ◌*ℤ◌, ◌≤ℤ◌, ◌<ℤ◌, int_laws, eq_of_parts, quot,
}
use wealthboard.Decimal.{rounded}
use wealthboard.World.{GoalRecord}
use wealthboard.Goals.{grow, project, bisect, round_up, required_monthly, minor_exp}
use wealthboard.Goals.Growth.{project_mono, nonnegative, rounded_mono, mul_mono, mul_parts}

-- The middle of an interval of amounts that are not negative.
middle : (lo hi : ℕ) → quot (pos lo +ℤ pos hi) 2 ≡ pos ((lo + hi) / 2)
unfolding quot ◌+ℤ◌
middle lo hi = ground arith

short : (lo hi : ℕ) → leb_ℤ (pos hi -ℤ pos lo) (pos 1) ≡ leb hi (lo + 1)
unfolding ◌-ℤ◌
short lo hi = ground arith

-- Whatever the fuel, the search ends in a payment that is enough.
bisect_enough :
    (fuel : ℕ) (enough : ℤ → Bool) (lo hi : ℕ)
    → enough (pos hi) ≡ true
    → enough (bisect fuel enough (pos lo) (pos hi)) ≡ true
unfolding bisect
bisect_enough zero enough lo hi h = h
bisect_enough (suc fuel) enough lo hi h =
    rw (middle lo hi) (elim (Bool-cases (leb_ℤ (pos hi -ℤ pos lo) (pos 1))) [
      | inl stop ↦ rw stop h
      | inr go ↦ rw go (elim (Bool-cases (enough (pos ((lo + hi) / 2)))) [
        | inl ys ↦ rw ys (bisect_enough fuel enough lo ((lo + hi) / 2) ys)
        | inr ns ↦ rw ns (bisect_enough fuel enough ((lo + hi) / 2) hi h)
      ])
    ])

-- With fuel for the length of the interval, it ends in the payment just above one that is not.
bisect_least :
    (fuel : ℕ) (enough : ℤ → Bool) (lo hi : ℕ)
    → enough (pos lo) ≡ false
    → lo < hi
    → hi - lo ≤ fuel
    → (r : ℕ) × (bisect fuel enough (pos lo) (pos hi) ≡ pos (suc r)) × (enough (pos r) ≡ false)
unfolding bisect
bisect_least zero enough lo hi h small f = absurd (omega arith)
bisect_least (suc fuel) enough lo hi h small f =
    rw (middle lo hi, short lo hi)
      (elim (Bool-cases (leb hi (lo + 1))) [
        | inl stop ↦ rw stop (lo, ap pos (ground arith), h)
        | inr go ↦ rw go (elim (Bool-cases (enough (pos ((lo + hi) / 2)))) [
          | inl ys ↦
              rw ys (bisect_least fuel enough lo ((lo + hi) / 2) h (ground arith) (ground arith))
          | inr ns ↦
              rw ns (bisect_least fuel enough ((lo + hi) / 2) hi ns (ground arith) (ground arith))
        ])
      ])

rounded-zero : (f : ℕ) → rounded (pos 0 *ℤ pos f) (pos 120000) ≡ pos 0
unfolding rounded ◌*ℤ◌
rounded-zero f = ground arith

grow-payment : (v p bps : ℤ) → pos 0 ≤ℤ pos 120000 +ℤ bps → pos 0 ≤ℤ v → p ≤ℤ grow v p bps
unfolding grow
grow-payment v p bps r h =
    let f = magnitude (pos 120000 +ℤ bps) in
    let e : pos 120000 +ℤ bps ≡ pos f = nonnegative (pos 120000 +ℤ bps) r in
    let up : rounded (pos 0 *ℤ pos f) (pos 120000) ≤ℤ rounded (v *ℤ pos f) (pos 120000) =
      rounded_mono (pos 0 *ℤ pos f) (v *ℤ pos f) 119999 (mul_mono (pos 0) v f h) in
    rw e (omega (int_laws, up, ap pos_part (rounded-zero f), ap neg_part (rounded-zero f)))

-- A payment that is the target itself is enough for a goal that does not start below zero.
project-nonnegative :
    (n : ℕ) (v p bps : ℤ)
    → pos 0 ≤ℤ pos 120000 +ℤ bps
    → pos 0 ≤ℤ v
    → pos 0 ≤ℤ p
    → pos 0 ≤ℤ project v p bps n
unfolding project
project-nonnegative zero v p bps r h k = h
project-nonnegative (suc n) v p bps r h k =
    project-nonnegative n (grow v p bps) p bps r (omega (arith, grow-payment v p bps r h)) k

project-payment :
    (n : ℕ) (v p bps : ℤ)
    → pos 0 ≤ℤ pos 120000 +ℤ bps
    → pos 0 ≤ℤ v
    → pos 0 ≤ℤ p
    → p ≤ℤ project v p bps (suc n)
unfolding project
project-payment zero v p bps r h k = grow-payment v p bps r h
project-payment (suc n) v p bps r h k =
    project-payment n (grow v p bps) p bps r (omega (arith, grow-payment v p bps r h)) k

mul-pos : (a b : ℕ) → pos a *ℤ pos b ≡ pos (a * b)
mul-pos a b =
    let (p, n) = mul_parts (pos a) b in eq_of_parts (pos a *ℤ pos b) (pos (a * b)) (omega arith)

quot-pos : (a b : ℕ) → quot (pos a) b ≡ pos (a / b)
unfolding quot
quot-pos a b = refl

-- `round_up` is at least the amount and less than a unit above it.
round_up-bounds :
    (hi unit : ℕ)
    → 0 < unit
    → (pos hi ≤ℤ round_up (pos hi) unit) × (round_up (pos hi) unit <ℤ pos hi +ℤ pos unit)
unfolding round_up
round_up-bounds hi unit h =
    let e : pos hi +ℤ pos unit -ℤ pos 1 ≡ pos (hi + unit - 1) = omega int_laws in
    let up : hi + unit - 1 < (hi + unit - 1) / unit * unit + unit = lt-div-mul-add h in
    rw (e, quot-pos (hi + unit - 1) unit, mul-pos ((hi + unit - 1) / unit) unit)
      (omega (int_laws, div-mul-le_self (hi + unit - 1) unit), omega (int_laws, up))

minor_exp-unit : (g : GoalRecord) → 0 < 10 ^ minor_exp g.currency
minor_exp-unit g = one-le-pow (minor_exp g.currency) 10 (omega arith)

met : (a b : ℤ) → leb_ℤ a b ≡ true → a ≤ℤ b
met a b h = ground arith

unmet : (a b : ℤ) → leb_ℤ a b ≡ false → b <ℤ a
unmet a b h = ground arith

is_met : (a b : ℤ) → a ≤ℤ b → leb_ℤ a b ≡ true
is_met a b h = ground arith

suc_is_not_zero : (n : ℕ) → (suc n == 0) ≡ false
suc_is_not_zero n = ground arith

above_zero : (a b : ℤ) → pos 0 ≤ℤ b → b <ℤ a → (t : ℕ) × (a ≡ pos (suc t))
above_zero (pos zero) b h k = absurd (omega arith)
above_zero (pos (suc t)) b h k = (t, refl)
above_zero (negsuc t) b h k = absurd (omega arith)

-- What a goal that is at least a month away needs: nothing, or the least payment that is enough,
-- rounded up.
Needed : GoalRecord → ℤ → ℤ → ℕ → Type 0
Needed g current bps n =
    ((required_monthly g current bps n ≡ pos 0) × (g.target_minor ≤ℤ project current (pos 0) bps n))
    ⊎ ((hi : ℕ) × (required_monthly g current bps n
          ≡ round_up (pos (suc hi)) (10 ^ minor_exp g.currency))
        × (g.target_minor ≤ℤ project current (pos (suc hi)) bps n)
        × (project current (pos hi) bps n <ℤ g.target_minor))

searched :
    (g : GoalRecord) (current bps : ℤ) (n t : ℕ)
    → g.target_minor ≡ pos (suc t)
    → pos 0 ≤ℤ pos 120000 +ℤ bps
    → pos 0 ≤ℤ current
    → leb_ℤ g.target_minor (project current (pos 0) bps (suc n)) ≡ false
    → Needed g current bps (suc n)
unfolding required_monthly Needed
searched g current bps n t e r h low =
    let enough = λ (m : ℤ). leb_ℤ g.target_minor (project current m bps (suc n)) in
    let top : enough (pos (suc t)) ≡ true =
      is_met g.target_minor (project current (pos (suc t)) bps (suc n)) (
        subst (λ (u : ℤ). u ≤ℤ project current (pos (suc t)) bps (suc n)) (sym e)
          (project-payment n current (pos (suc t)) bps r h (omega arith))) in
    let reach = bisect_enough (suc t) enough 0 (suc t) top in
    let (hi, found, below) =
      bisect_least (suc t) enough 0 (suc t) low (omega arith) (omega arith) in
    inr (
      hi,
      rw (suc_is_not_zero n, low)
          (ap (λ (v : ℤ). round_up v (10 ^ minor_exp g.currency))
            (ap (λ (v : ℤ). bisect (magnitude v) enough (pos 0) v) e ∙ found)),
      met g.target_minor (project current (pos (suc hi)) bps (suc n))
          (subst (λ (u : ℤ). enough u ≡ true) found reach),
      unmet g.target_minor (project current (pos hi) bps (suc n)) below,
    )

needed :
    (g : GoalRecord) (current bps : ℤ) (n : ℕ)
    → pos 0 ≤ℤ pos 120000 +ℤ bps
    → pos 0 ≤ℤ current
    → Needed g current bps (suc n)
unfolding required_monthly Needed
needed g current bps n r h =
    let flat = project current (pos 0) bps (suc n) in
    elim (Bool-cases (leb_ℤ g.target_minor flat)) [
      | inl free ↦ inl (rw (suc_is_not_zero n, free) refl, met g.target_minor flat free)
      | inr low ↦
          let (t, e) =
            above_zero g.target_minor flat
              (project-nonnegative (suc n) current (pos 0) bps r h (omega arith))
              (unmet g.target_minor flat low) in
          searched g current bps n t e r h low
    ]

-- For a goal at least a month away, at a yearly rate not below -120000 basis points and from a value
-- that is not negative, the projection with the payment of `requiredMonthly` reaches the target.
pub required_monthly-reaches :
    (g : GoalRecord) (current bps : ℤ) (n : ℕ)
    → pos 0 ≤ℤ pos 120000 +ℤ bps
    → pos 0 ≤ℤ current
    → g.target_minor ≤ℤ project current (required_monthly g current bps (suc n)) bps (suc n)
unfolding Needed
required_monthly-reaches g current bps n r h = elim (needed g current bps n r h) [
  | inl (e, reach) ↦ rw e reach
  | inr (hi, e, reach, below) ↦
      let unit = 10 ^ minor_exp g.currency in
      let (up, near) = round_up-bounds (suc hi) unit (minor_exp-unit g) in
      let more =
        project_mono (suc n) current current (pos (suc hi)) (round_up (pos (suc hi)) unit) bps r
          (omega arith) up in
      rw e (omega (arith, reach, more))
]

-- Under the same conditions, no payment that is not negative and reaches the target is smaller by a
-- whole currency unit: the payment of `requiredMonthly` is less than any such payment plus a unit.
pub required_monthly-least :
    (g : GoalRecord) (current bps p : ℤ) (n : ℕ)
    → pos 0 ≤ℤ pos 120000 +ℤ bps
    → pos 0 ≤ℤ current
    → pos 0 ≤ℤ p
    → g.target_minor ≤ℤ project current p bps (suc n)
    → required_monthly g current bps (suc n) <ℤ p +ℤ pos (10 ^ minor_exp g.currency)
unfolding Needed
required_monthly-least g current bps p n r h k reach = elim (needed g current bps n r h) [
  | inl (e, reached) ↦ rw e (omega (int_laws, minor_exp-unit g))
  | inr (hi, e, reached, below) ↦
      let unit = 10 ^ minor_exp g.currency in
      let (up, near) = round_up-bounds (suc hi) unit (minor_exp-unit g) in
      elim (Bool-cases (leb_ℤ p (pos hi))) [
        | inl small ↦ absurd (
            omega (
              arith,
              reach,
              below,
              project_mono (suc n) current current p (pos hi) bps r (omega arith)
                  (met p (pos hi) small),
            ))
        | inr large ↦ rw e (omega (int_laws, near, unmet p (pos hi) large))
      ]
]

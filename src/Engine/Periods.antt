-- ===== src/Engine/Periods.antt =====
-- `flowsBetween` of engine.ts over two periods, one behind the other.
use wealthboard.Base.{
  ℕ, ◌≤◌, ◌≡◌, refl, sym, ap, ap₂, ◌∙◌, subst, Bool, true, false, not, ◌&&◌, ◌||◌, arith, Option,
  none, some, if◌then◌else◌, ℤ, ◌+ℤ◌, is_zero, int_laws, +ℤ_assoc, Result, ok, err, ◌>>=◌, for_each,
  >>=-eq-ok, for_each-join, ok-injective,
}
use wealthboard.World.{AccountRecord, TxnRecord, PositionEventRecord}
use wealthboard.Engine.Ledgers.{Engine, txns, events}
use wealthboard.Engine.Lookup.{base, is_liability, convert}
use wealthboard.Engine.Totals.{Totals, totals_at}
use wealthboard.Engine.Flows.{
  Flow, contribution, outflow, income, charge, internal, growth, flow_kind, FlowSums, no_flows,
  add_flow, is_outside, is_counted, add_known, add_txn_flow, add_event_flow, add_account_flows,
  FlowsResult, to_flows, flows_between,
}

-- The sums of two periods together.
abbrev join : FlowSums → FlowSums → FlowSums
join s t = record {
  contributions = s.contributions +ℤ t.contributions;
  withdrawals = s.withdrawals +ℤ t.withdrawals;
  incomes = s.incomes +ℤ t.incomes;
  fees = s.fees +ℤ t.fees;
  complete = s.complete && t.complete;
}

swap_last : (a b v : ℤ) → a +ℤ b +ℤ v ≡ a +ℤ v +ℤ b
swap_last a b v = omega int_laws

and-false : (b : Bool) → (b && false) ≡ false
and-false true = refl
and-false false = refl

-- An amount goes to the first period, or to the second.
add_known-join_left :
    (kind : Flow) (s t : FlowSums) (c : Option ℤ)
    → add_known kind (join s t) c ≡ join (add_known kind s c) t
unfolding add_flow
add_known-join_left kind s t none = refl
add_known-join_left contribution s t (some v) =
    ap (λ (x : ℤ). record (join s t) { contributions = x })
      (swap_last s.contributions t.contributions v)
add_known-join_left outflow s t (some v) =
    ap (λ (x : ℤ). record (join s t) { withdrawals = x }) (swap_last s.withdrawals t.withdrawals v)
add_known-join_left income s t (some v) =
    ap (λ (x : ℤ). record (join s t) { incomes = x }) (swap_last s.incomes t.incomes v)
add_known-join_left charge s t (some v) =
    ap (λ (x : ℤ). record (join s t) { fees = x }) (swap_last s.fees t.fees v)
add_known-join_left internal s t (some v) = refl
add_known-join_left growth s t (some v) = refl

add_known-join_right :
    (kind : Flow) (s t : FlowSums) (c : Option ℤ)
    → add_known kind (join s t) c ≡ join s (add_known kind t c)
unfolding add_flow
add_known-join_right kind s t none =
    ap (λ (b : Bool). record (join s t) { complete = b }) (sym (and-false s.complete))
add_known-join_right contribution s t (some v) =
    ap (λ (x : ℤ). record (join s t) { contributions = x })
      (+ℤ_assoc s.contributions t.contributions v)
add_known-join_right outflow s t (some v) =
    ap (λ (x : ℤ). record (join s t) { withdrawals = x }) (+ℤ_assoc s.withdrawals t.withdrawals v)
add_known-join_right income s t (some v) =
    ap (λ (x : ℤ). record (join s t) { incomes = x }) (+ℤ_assoc s.incomes t.incomes v)
add_known-join_right charge s t (some v) =
    ap (λ (x : ℤ). record (join s t) { fees = x }) (+ℤ_assoc s.fees t.fees v)
add_known-join_right internal s t (some v) = refl
add_known-join_right growth s t (some v) = refl

-- One round of a loop: skip the entry, or add what is known of it.
abbrev round : Bool → Flow → Result (Option ℤ) → FlowSums → Result FlowSums
round skip kind c s = if skip then ok s else c >>= λ v. ok (add_known kind s v)

-- Each entry is skipped by at least one of the two periods, and by both exactly when the whole
-- period skips it.
round-join :
    (b b' : Bool) (kind : Flow) (c : Result (Option ℤ)) (s t s' t' : FlowSums)
    → (b || b') ≡ true
    → round b kind c s ≡ ok s'
    → round b' kind c t ≡ ok t'
    → round (b && b') kind c (join s t) ≡ ok (join s' t')
round-join true true kind c s t s' t' h p q =
    ap₂ (λ (x y : FlowSums). ok (join x y)) (ok-injective p) (ok-injective q)
round-join true false kind (err x) s t s' t' h p q = cc
round-join true false kind (ok v) s t s' t' h p q =
    ap ok (add_known-join_right kind s t v)
    ∙ ap₂ (λ (x y : FlowSums). ok (join x y)) (ok-injective p) (ok-injective q)
round-join false true kind (err x) s t s' t' h p q = cc
round-join false true kind (ok v) s t s' t' h p q =
    ap ok (add_known-join_left kind s t v)
    ∙ ap₂ (λ (x y : FlowSums). ok (join x y)) (ok-injective p) (ok-injective q)
round-join false false kind c s t s' t' h p q = cc

-- An account that is left out adds nothing to any period.
gate_join :
    (included : Bool) (s t s' t' : FlowSums) {m m' w : Result FlowSums}
    → (if not included then ok s else m) ≡ ok s'
    → (if not included then ok t else m') ≡ ok t'
    → (m ≡ ok s' → m' ≡ ok t' → w ≡ ok (join s' t'))
    → (if not included then ok (join s t) else w) ≡ ok (join s' t')
gate_join true s t s' t' p q h = h p q
gate_join false s t s' t' p q h =
    ap₂ (λ (x y : FlowSums). ok (join x y)) (ok-injective p) (ok-injective q)

module _ (from mid to date : ℕ) (before : from ≤ mid) (behind : mid ≤ to) (skip : Bool) where
  one_skips : ((is_outside from mid date || skip) || (is_outside mid to date || skip)) ≡ true
  one_skips = ground arith

  both_skip :
      ((is_outside from mid date || skip) && (is_outside mid to date || skip))
      ≡ (is_outside from to date || skip)
  both_skip = ground arith

-- The flows `w` of a whole period start and end as those of its two parts do, and each of their
-- sums, the growth included, is the sum of those of the parts.
abbrev pub AddUp : FlowsResult → FlowsResult → FlowsResult → Type 0
AddUp w f g =
    (w.start ≡ f.start)
    × (w.end ≡ g.end)
    × (w.contributions ≡ f.contributions +ℤ g.contributions)
    × (w.withdrawals ≡ f.withdrawals +ℤ g.withdrawals)
    × (w.incomes ≡ f.incomes +ℤ g.incomes)
    × (w.fees ≡ f.fees +ℤ g.fees)
    × (w.growth ≡ f.growth +ℤ g.growth)

join_flows :
    (s t : FlowSums) (x y z : Totals)
    → AddUp (to_flows (join s t) x z) (to_flows s x y) (to_flows t y z)
join_flows s t x y z = (refl, refl, refl, refl, refl, refl, omega int_laws)

compute_flows :
    (m : Result FlowSums) (n k : Result Totals) (s : FlowSums) (x z : Totals)
    → m ≡ ok s
    → n ≡ ok x
    → k ≡ ok z
    → (m >>= λ s'. n >>= λ start. k >>= λ end. ok (to_flows s' start end)) ≡ ok (to_flows s x z)
compute_flows m n k s x z p q r = rw (p, q, r)

join-no_flows : join no_flows no_flows ≡ no_flows
unfolding ◌+ℤ◌
join-no_flows = refl

module _ (e : Engine) (from mid to : ℕ) (before : from ≤ mid) (behind : mid ≤ to) where
  add_txn_flow-join :
      (a : AccountRecord) (s t s' t' : FlowSums) (x : TxnRecord)
      → add_txn_flow e from mid a s x ≡ ok s'
      → add_txn_flow e mid to a t x ≡ ok t'
      → add_txn_flow e from to a (join s t) x ≡ ok (join s' t')
  unfolding add_txn_flow
  add_txn_flow-join a s t s' t' x p q =
      let kind = flow_kind x.kind (is_liability e a) in
      let skip = not (is_counted kind) in
      subst
        (λ (b : Bool).
          round b kind (convert e x.amount_minor a.currency (base e) x.date) (join s t)
          ≡ ok (join s' t'))
        (both_skip from mid to x.date before behind skip)
        (round-join (is_outside from mid x.date || skip) (is_outside mid to x.date || skip) kind
          (convert e x.amount_minor a.currency (base e) x.date) s t s' t'
          (one_skips from mid to x.date before behind skip) p q)

  add_event_flow-join :
      (a : AccountRecord) (s t s' t' : FlowSums) (x : PositionEventRecord)
      → add_event_flow e from mid a s x ≡ ok s'
      → add_event_flow e mid to a t x ≡ ok t'
      → add_event_flow e from to a (join s t) x ≡ ok (join s' t')
  unfolding add_event_flow
  add_event_flow-join a s t s' t' x p q =
      let skip = is_zero x.fee_minor in
      subst
        (λ (b : Bool).
          round b charge (convert e x.fee_minor a.currency (base e) x.date) (join s t)
          ≡ ok (join s' t'))
        (both_skip from mid to x.date before behind skip)
        (round-join (is_outside from mid x.date || skip) (is_outside mid to x.date || skip) charge
          (convert e x.fee_minor a.currency (base e) x.date) s t s' t'
          (one_skips from mid to x.date before behind skip) p q)

  add_account_flows-join :
      (s t s' t' : FlowSums) (a : AccountRecord)
      → add_account_flows e from mid s a ≡ ok s'
      → add_account_flows e mid to t a ≡ ok t'
      → add_account_flows e from to (join s t) a ≡ ok (join s' t')
  unfolding add_account_flows
  add_account_flows-join s t s' t' a p q =
      gate_join a.is_included_in_net_worth s t s' t' p q (λ p' q'.
        let (s1, p1, p2) =
          >>=-eq-ok (for_each (add_txn_flow e from mid a) s (txns e a.id))
            (λ u. for_each (add_event_flow e from mid a) u (events e a.id)) p' in
        let (t1, q1, q2) =
          >>=-eq-ok (for_each (add_txn_flow e mid to a) t (txns e a.id))
            (λ u. for_each (add_event_flow e mid to a) u (events e a.id)) q' in
        rw
          (for_each-join join (add_txn_flow e from mid a) (add_txn_flow e mid to a)
            (add_txn_flow e from to a) (add_txn_flow-join a) (txns e a.id) s t s1 t1 p1 q1)
          (for_each-join join (add_event_flow e from mid a) (add_event_flow e mid to a)
            (add_event_flow e from to a) (add_event_flow-join a) (events e a.id) s1 t1 s' t' p2 q2))

  -- The flows of two adjacent periods add up: if both are computed, so are the flows over the whole
  -- period, which start and end as they do, and each of whose sums, growth included, is their sum.
  pub flows_between-join :
      (f g : FlowsResult)
      → flows_between e from mid ≡ ok f
      → flows_between e mid to ≡ ok g
      → (w : FlowsResult) × (flows_between e from to ≡ ok w) × AddUp w f g
  unfolding flows_between
  flows_between-join f g p q =
      let rest = λ (x z : Result Totals) (s : FlowSums).
        x >>= λ start. z >>= λ end. ok (to_flows s start end) in
      let accounts = e.world.accounts in
      let (s, ps, p') =
        >>=-eq-ok (for_each (add_account_flows e from mid) no_flows accounts)
          (rest (totals_at e from) (totals_at e mid)) p in
      let (x, px, p'') =
        >>=-eq-ok (totals_at e from) (λ start. totals_at e mid >>= λ end. ok (to_flows s start end))
          p' in
      let (y, py, pf) = >>=-eq-ok (totals_at e mid) (λ end. ok (to_flows s x end)) p'' in
      let (t, qt, q') =
        >>=-eq-ok (for_each (add_account_flows e mid to) no_flows accounts)
          (rest (totals_at e mid) (totals_at e to)) q in
      let (y', qy, q'') =
        >>=-eq-ok (totals_at e mid) (λ start. totals_at e to >>= λ end. ok (to_flows t start end))
          q' in
      let (z, qz, qg) = >>=-eq-ok (totals_at e to) (λ end. ok (to_flows t y' end)) q'' in
      let flows : for_each (add_account_flows e from to) (join no_flows no_flows) accounts
          ≡ ok (join s t) =
        for_each-join join (add_account_flows e from mid) (add_account_flows e mid to)
          (add_account_flows e from to) add_account_flows-join accounts no_flows no_flows s t ps
          qt in
      let flows' =
        subst (λ (u : FlowSums). for_each (add_account_flows e from to) u accounts ≡ ok (join s t))
          join-no_flows flows in
      let same_mid : y' ≡ y = ok-injective (sym qy ∙ py) in
      let ends : to_flows t y z ≡ g =
        ap (λ (u : Totals). to_flows t u z) (sym same_mid) ∙ ok-injective qg in
      (
        to_flows (join s t) x z,
        compute_flows (for_each (add_account_flows e from to) no_flows accounts) (totals_at e from)
            (totals_at e to) (join s t) x z flows' px qz,
        subst (λ u. AddUp (to_flows (join s t) x z) u g) (ok-injective pf)
            (subst (λ u. AddUp (to_flows (join s t) x z) (to_flows s x y) u) ends
              (join_flows s t x y z)),
      )

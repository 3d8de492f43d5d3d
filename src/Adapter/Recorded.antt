-- ===== src/Adapter/Recorded.antt =====
-- `exchangeRates.create` of adapter.ts, and the pairs of currencies that are recorded.
use wealthboard.Base.{
  ◌==◌, ◌≡◌, Bool, false, ◌&&◌, arith, Bool-cases, inl, inr, List, [], ◌∷◌, ◌++◌, any, All, same,
  throw_if, ltb, throw_if-passes, invalid, conflict,
}
use wealthboard.World.{World, ExchangeRate}
use wealthboard.Engine.Ledgers.{Engine}
use wealthboard.Adapter.Entries.{Host}
use wealthboard.Adapter.Prices.{RateCreate, create_rate, new_rate, is_recorded, is_pair}
use wealthboard.Adapter.Refers.{All-append}
use wealthboard.Adapter.Leaves.{Leaves, Leaves->>=}

-- Two rates of one moment that are for one pair of currencies, in either direction.
abbrev pub clashes : ExchangeRate → ExchangeRate → Bool
clashes r q = r.effective_date == q.effective_date && is_pair q.base_currency q.quote_currency r

-- No rate clashes with a later one of the list.
abbrev pub Distinct : List ExchangeRate → Type 0
Distinct [] = Unit
Distinct (r ∷ rs) = All (λ q. clashes r q ≡ false) rs × Distinct rs

Distinct-last :
    (rs : List ExchangeRate) (q : ExchangeRate)
    → any (λ r. clashes r q) rs ≡ false
    → Distinct rs
    → Distinct (rs ++ q ∷ [])
Distinct-last [] q k h = (tt, tt)
Distinct-last (r ∷ rs) q k h = elim (Bool-cases (clashes r q)) [
  | inl c ↦ absurd (ground arith)
  | inr c ↦
      let k' = rw c at k in
      (All-append (λ x. clashes r x ≡ false) rs (q ∷ []) h.0 (c, tt), Distinct-last rs q k' h.1)
]

abbrev pub DistinctRates : World → Type 0
DistinctRates w = Distinct w.rates

-- A rate that is created leaves at most one rate for each pair of currencies, in either direction, and moment, if there was at most one before.
pub create_rate-Distinct :
    (h : Host) (body : RateCreate) (e : Engine)
    → Distinct e.world.rates
    → Leaves DistinctRates (create_rate h body e)
unfolding create_rate
create_rate-Distinct h body e d =
    Leaves->>= DistinctRates (throw_if (same body.base_currency body.quote_currency) invalid) _
      (λ u1 p1.
        Leaves->>= DistinctRates (throw_if (ltb e.today body.effective_date) invalid) _ (λ u2 p2.
          Leaves->>= DistinctRates (throw_if (any (is_recorded body) e.world.rates) conflict) _
            (λ u3 p3.
              Distinct-last e.world.rates (new_rate h body)
                (throw_if-passes (any (is_recorded body) e.world.rates) conflict p3) d)))

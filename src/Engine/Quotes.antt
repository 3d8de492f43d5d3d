-- ===== src/Engine/Quotes.antt =====
-- Which price and which exchange rate the engine finds.
use wealthboard.Base.{
  ℕ, ◌≤◌, ◌<◌, ◌≡◌, refl, subst, Bool, true, ◌&&◌, ◌||◌, arith, Bool-cases, ◌⊎◌, inl, inr, Option,
  none, some, List, [], ◌∷◌, ltb, leb, ◌==◌, keep, All, Member, Member-All, Member-keep,
  sort_by-Member, Text,
}
use wealthboard.World.{SecurityPrice, ExchangeRate, date_of}
use wealthboard.Engine.Ledgers.{Engine, price_before, prices_of}
use wealthboard.Engine.Lookup.{
  last_price, price_at, Quote, is_direct, is_inverse, is_later, consider, best_rate, rate_at,
}
use wealthboard.Engine.Order.{Ascending, All-sort_by, sort_by-Ascending}

abbrev PriceLe : SecurityPrice → SecurityPrice → Type 0
PriceLe a b = a.effective_date ≤ b.effective_date

abbrev day : SecurityPrice → ℕ
day p = date_of p.effective_date

prices_of-Ascending : (e : Engine) (id : ℕ) → Ascending PriceLe (prices_of e id)
unfolding prices_of
prices_of-Ascending e id =
    sort_by-Ascending PriceLe price_before (λ a b h. ground arith) (λ a b h. ground arith)
      (λ a b c h k. omega arith) (keep (λ p. p.instrument_id == id) e.world.prices)

prices_of-instrument : (e : Engine) (id : ℕ) → All (λ p. p.instrument_id ≡ id) (prices_of e id)
unfolding prices_of
prices_of-instrument e id =
    All-sort_by (λ p. p.instrument_id ≡ id) price_before
      (keep (λ p. p.instrument_id == id) e.world.prices) (kept e.world.prices)
  where
    kept :
        (ps : List SecurityPrice)
        → All (λ p. p.instrument_id ≡ id) (keep (λ p. p.instrument_id == id) ps)
    kept [] = tt
    kept (p ∷ ps) = elim (Bool-cases (p.instrument_id == id)) [
      | inl k ↦ rw k (ground arith, kept ps)
      | inr k ↦ rw k (kept ps)
    ]

module _ (id date : ℕ) where
  -- What is known of a price that the loop returns.
  abbrev Found : SecurityPrice → SecurityPrice → Type 0
  Found q p = (p.instrument_id ≡ id) × (day p ≤ date) × (day q ≤ day p)

  -- The loop returns a price at least as late as the one found so far.
  last_price-Found :
      (x : SecurityPrice) (ps : List SecurityPrice)
      → x.instrument_id ≡ id
      → day x ≤ date
      → All (λ p. p.instrument_id ≡ id) ps
      → Ascending PriceLe (x ∷ ps)
      → (p : SecurityPrice) × (last_price date (some x) ps ≡ some p) × Found x p
  unfolding last_price
  last_price-Found x [] hx lx hp asc = (x, refl, (hx, lx, omega arith))
  last_price-Found x (y ∷ ps) hx lx hp asc = elim (Bool-cases (leb (day y) date)) [
    | inl early ↦
        let (p, e, (hi, hd, hq)) = last_price-Found y ps hp.0 (ground arith) hp.1 asc.1 in
        let step : day x ≤ day y = omega arith in (p, rw early e, (hi, hd, omega arith))
    | inr late ↦ (x, rw late, (hx, lx, omega arith))
  ]

  last_price-best :
      (found : Option SecurityPrice) (q : SecurityPrice) (ps : List SecurityPrice)
      → Member q ps
      → day q ≤ date
      → All (λ p. p.instrument_id ≡ id) ps
      → Ascending PriceLe ps
      → (p : SecurityPrice) × (last_price date found ps ≡ some p) × Found q p
  unfolding last_price
  last_price-best found q [] m lq hp asc = elim m [ ]
  last_price-best found q (y ∷ ps) m lq hp asc = elim (Bool-cases (leb (day y) date)) [
    | inl early ↦ elim m [
      | inl same_price ↦
          let (p, e, (hi, hd, hq)) = last_price-Found y ps hp.0 (ground arith) hp.1 asc in
          (p, rw early e, (hi, hd, rw same_price hq))
      | inr later ↦
          let (p, e, f) = last_price-best (some y) q ps later lq hp.1 asc.1 in (p, rw early e, f)
    ]
    | inr late ↦
        let after : y.effective_date ≤ q.effective_date =
          Member-All (PriceLe y) q (y ∷ ps) (omega arith, asc.0) m in
        let past : date < day y = ground arith in absurd (omega arith)
  ]

-- Whenever a price of the instrument on or before the date is recorded, `priceAt` returns a price
-- of that instrument that is not after the date, and no recorded one that fits is later.
pub price_at-best :
    (e : Engine) (instrument_id date : ℕ) (q : SecurityPrice)
    → Member q e.world.prices
    → q.instrument_id ≡ instrument_id
    → date_of q.effective_date ≤ date
    → (p : SecurityPrice) × (price_at e instrument_id date ≡ some p)
      × ((p.instrument_id ≡ instrument_id)
          × (date_of p.effective_date ≤ date)
          × (date_of q.effective_date ≤ date_of p.effective_date))
unfolding price_at
price_at-best e instrument_id date q m own fits =
    last_price-best instrument_id date none q (prices_of e instrument_id)
      (unfold prices_of in
        sort_by-Member price_before q (keep (λ p. p.instrument_id == instrument_id) e.world.prices)
          (Member-keep (λ p. p.instrument_id == instrument_id) q e.world.prices (ground arith) m))
      fits (prices_of-instrument e instrument_id) (prices_of-Ascending e instrument_id)

module _ (from to : Text) (date : ℕ) where
  -- A rate that converts `from` into `to`, in either direction, on or before the date.
  abbrev Applies : ExchangeRate → Type 0
  Applies r =
      ((is_direct from to r || is_inverse from to r) ≡ true) × (date_of r.effective_date ≤ date)

  -- A quote is taken from such a rate of the list.
  abbrev QuoteOf : Quote → ExchangeRate → Type 0
  QuoteOf q r =
      (q.rate ≡ r.rate) × (q.invert ≡ is_inverse from to r) × (q.date ≡ date_of r.effective_date)

  abbrev quote : ExchangeRate → Quote
  quote r = record { rate = r.rate; invert = is_inverse from to r; date = date_of r.effective_date }

  abbrev converts : ExchangeRate → Bool
  converts r = is_direct from to r || is_inverse from to r

  -- A round keeps a quote on or before the date, and never goes back in time.
  consider-some :
      (b : Quote) (r : ExchangeRate)
      → b.date ≤ date
      → (b' : Quote) × (consider from to date (some b) r ≡ some b')
        × (b.date ≤ b'.date)
        × (b'.date ≤ date)
  unfolding consider
  consider-some b r h = elim (Bool-cases (ltb date (date_of r.effective_date))) [
    | inl late ↦ (b, rw late, omega arith, h)
    | inr early ↦ elim (Bool-cases (converts r && ltb b.date (date_of r.effective_date))) [
      | inl take ↦ (quote r, rw (early, take), ground arith, ground arith)
      | inr leave ↦ (b, rw (early, leave), omega arith, h)
    ]
  ]

  -- A round on a rate that applies leaves a quote that is at least as late.
  consider-Applies :
      (best : Option Quote) (r : ExchangeRate)
      → ((b : Quote) → best ≡ some b → b.date ≤ date)
      → Applies r
      → (b' : Quote) × (consider from to date best r ≡ some b')
        × (date_of r.effective_date ≤ b'.date)
        × (b'.date ≤ date)
  unfolding consider
  consider-Applies none r h (direct, fits) = (quote r, ground arith, omega arith, fits)
  consider-Applies (some b) r h (direct, fits) =
      elim (Bool-cases (ltb b.date (date_of r.effective_date))) [
        | inl later ↦ (quote r, ground arith, omega arith, fits)
        | inr not_later ↦ (b, ground arith, ground arith, h b refl)
      ]

  best_rate-at_least :
      (b : Quote) (rs : List ExchangeRate)
      → b.date ≤ date
      → (q : Quote) × (best_rate from to date (some b) rs ≡ some q)
        × (b.date ≤ q.date)
        × (q.date ≤ date)
  unfolding best_rate
  best_rate-at_least b [] h = (b, refl, omega arith, h)
  best_rate-at_least b (r ∷ rs) h =
      let (b', e, up, fits) = consider-some b r h in
      let (q, e', up', fits') = best_rate-at_least b' rs fits in (q, rw e e', omega arith, fits')

  consider-fits :
      (best : Option Quote) (r : ExchangeRate)
      → ((b : Quote) → best ≡ some b → b.date ≤ date)
      → (b : Quote) → consider from to date best r ≡ some b
      → b.date ≤ date
  unfolding consider
  consider-fits best r h b e = elim (Bool-cases (ltb date (date_of r.effective_date))) [
    | inl late ↦ h b (ground arith)
    | inr early ↦ elim (Bool-cases (converts r && is_later (date_of r.effective_date) best)) [
      | inl take ↦ ground arith
      | inr leave ↦ h b (ground arith)
    ]
  ]

  best_rate-best :
      (best : Option Quote) (r : ExchangeRate) (rs : List ExchangeRate)
      → ((b : Quote) → best ≡ some b → b.date ≤ date)
      → Member r rs
      → Applies r
      → (q : Quote) × (best_rate from to date best rs ≡ some q)
        × (date_of r.effective_date ≤ q.date)
        × (q.date ≤ date)
  unfolding best_rate
  best_rate-best best r [] h m a = elim m [ ]
  best_rate-best best r (x ∷ rs) h (inl e) a =
      let (b, eb, up, fits) = consider-Applies best x h (subst Applies e a) in
      let (q, eq, up', fits') = best_rate-at_least b rs fits in
      (q, rw eb eq, rw e (omega arith), fits')
  best_rate-best best r (x ∷ rs) h (inr m) a =
      best_rate-best (consider from to date best x) r rs (consider-fits best x h) m a

  consider-QuoteOf :
      (best : Option Quote) (x : ExchangeRate) (q : Quote)
      → consider from to date best x ≡ some q
      → (best ≡ some q) ⊎ (Applies x × QuoteOf q x)
  unfolding consider
  consider-QuoteOf best x q e = elim (Bool-cases (ltb date (date_of x.effective_date))) [
    | inl late ↦ inl (ground arith)
    | inr early ↦ elim (Bool-cases (converts x && is_later (date_of x.effective_date) best)) [
      | inl take ↦ inr (ground arith, ground arith)
      | inr leave ↦ inl (ground arith)
    ]
  ]

  -- Every quote comes from a rate of the list that applies.
  best_rate-QuoteOf :
      (best : Option Quote) (q : Quote) (rs : List ExchangeRate)
      → best_rate from to date best rs ≡ some q
      → (best ≡ some q) ⊎ ((r : ExchangeRate) × Member r rs × Applies r × QuoteOf q r)
  unfolding best_rate
  best_rate-QuoteOf best q [] h = inl h
  best_rate-QuoteOf best q (x ∷ rs) h =
      elim (best_rate-QuoteOf (consider from to date best x) q rs h) [
        | inr (r, m, a, o) ↦ inr (r, inr m, a, o)
        | inl e ↦ elim (consider-QuoteOf best x q e) [
          | inl old ↦ inl old
          | inr (a, o) ↦ inr (x, inl refl, a, o)
        ]
      ]

-- Whenever a rate between two currencies, in either direction, is recorded on or before a date,
-- `rateAt` returns a quote that is not after the date and not before that rate.
pub rate_at-best :
    (e : Engine) (from to : Text) (date : ℕ) (r : ExchangeRate)
    → Member r e.world.rates
    → (is_direct from to r || is_inverse from to r) ≡ true
    → date_of r.effective_date ≤ date
    → (q : Quote) × (rate_at e from to date ≡ some q)
      × (date_of r.effective_date ≤ q.date)
      × (q.date ≤ date)
unfolding rate_at
rate_at-best e from to date r m direct fits =
    best_rate-best from to date none r e.world.rates (λ b k. absurd (cc k)) m (direct, fits)

-- A quote of `rateAt` has the text and the date of a recorded rate between the two currencies on
-- or before the date, and is inverted exactly when that rate goes the other way.
pub rate_at_sound :
    (e : Engine) (from to : Text) (date : ℕ) (q : Quote)
    → rate_at e from to date ≡ some q
    → (r : ExchangeRate) × Member r e.world.rates
      × (((is_direct from to r || is_inverse from to r) ≡ true) × (date_of r.effective_date ≤ date))
      × ((q.rate ≡ r.rate)
          × (q.invert ≡ is_inverse from to r)
          × (q.date ≡ date_of r.effective_date))
unfolding rate_at
rate_at_sound e from to date q h = elim (best_rate-QuoteOf from to date none q e.world.rates h) [
  | inl never ↦ absurd (cc never)
  | inr found ↦ found
]

-- ===== src/Engine/Lookup.antt =====
-- Lookups: accounts, categories, instruments, prices and exchange rates.
use wealthboard.Base.{
  ℕ, Bool, true, false, ◌&&◌, ◌||◌, Option, none, some, List, [], ◌∷◌, ltb, leb, ◌==◌,
  if◌then◌else◌, find, ℤ, Text, same, Result, ok, ◌>>=◌,
}
use wealthboard.Decimal.{convert_minor}
use wealthboard.World.{
  AccountRecord, Category, Instrument, SecurityPrice, ExchangeRate, liability, asset, stock, etf,
  fund, date_of,
}
use wealthboard.Engine.Ledgers.{Engine, prices_of}

-- `base`
abbrev pub base : Engine → Text
base e = e.world.settings.base_currency

-- `account`, `category` and `instrument`
unfoldable pub account : Engine → ℕ → Option AccountRecord
account e id = find (λ a. a.id == id) e.world.accounts

unfoldable pub category : Engine → ℕ → Option Category
category e id = find (λ c. c.id == id) e.world.categories

unfoldable pub instrument : Engine → ℕ → Option Instrument
instrument e id = find (λ i. i.id == id) e.world.instruments

abbrev pub is_liability_category : Option Category → Bool
is_liability_category none = false
is_liability_category (some c) = elim c.asset_or_liability [ liability ↦ true | asset ↦ false ]

-- `isLiability`
unfoldable pub is_liability : Engine → AccountRecord → Bool
is_liability e a = is_liability_category (category e a.category_id)

-- `staleDays`
unfoldable pub stale_days : Engine → Instrument → ℕ
stale_days e i = elim i.asset_type [
  | etf ↦ e.world.settings.position_stale_days_etf
  | fund ↦ e.world.settings.position_stale_days_fund
  | stock ↦ e.world.settings.position_stale_days_stock
]

-- The loop of `priceAt`, with the last price found so far.
unfoldable pub last_price : ℕ → Option SecurityPrice → List SecurityPrice → Option SecurityPrice
last_price date found [] = found
last_price date found (p ∷ ps) =
    let rest = last_price date (some p) ps in
    if leb (date_of p.effective_date) date then rest else found

-- `priceAt`
unfoldable pub price_at : Engine → ℕ → ℕ → Option SecurityPrice
price_at e instrument_id date = last_price date none (prices_of e instrument_id)

-- `latestPrice`
unfoldable pub latest_price : Engine → ℕ → Option SecurityPrice
latest_price e instrument_id = price_at e instrument_id e.today

-- A rate on a date, and whether it is to be divided by.
pub record Quote : Type 0 where
  pub rate : Text
  pub invert : Bool
  pub date : ℕ

-- The two directions in which a rate converts `from` into `to`.
abbrev pub is_direct : Text → Text → ExchangeRate → Bool
is_direct from to r = same r.base_currency from && same r.quote_currency to

abbrev pub is_inverse : Text → Text → ExchangeRate → Bool
is_inverse from to r = same r.base_currency to && same r.quote_currency from

-- `!best || d > best.date`
abbrev pub is_later : ℕ → Option Quote → Bool
is_later d none = true
is_later d (some q) = ltb q.date d

-- One round of the loop of `rateAt`.
unfoldable pub consider : Text → Text → ℕ → Option Quote → ExchangeRate → Option Quote
consider from to date best r =
    let d = date_of r.effective_date in
    if ltb date d
    then best
    else if (is_direct from to r || is_inverse from to r) && is_later d best
    then some (record { rate = r.rate; invert = is_inverse from to r; date = d })
    else best

unfoldable pub best_rate : Text → Text → ℕ → Option Quote → List ExchangeRate → Option Quote
best_rate from to date best [] = best
best_rate from to date best (r ∷ rs) = best_rate from to date (consider from to date best r) rs

-- `rateAt`
unfoldable pub rate_at : Engine → Text → Text → ℕ → Option Quote
rate_at e from to date = best_rate from to date none e.world.rates

-- `convert`: `none` when there is no rate
unfoldable pub convert : Engine → ℤ → Text → Text → ℕ → Result (Option ℤ)
convert e minor from to date =
    if same from to then ok (some minor) else elim (rate_at e from to date) [
      | none ↦ ok none
      | some q ↦ convert_minor minor from to q.rate q.invert >>= λ v. ok (some v)
    ]

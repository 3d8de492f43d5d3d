-- ===== src/Adapter/Prices.antt =====
-- The handlers of `prices` and `exchangeRates` in adapter.ts that write.
use wealthboard.Base.{
  ℕ, ◌==◌, ◌&&◌, ◌||◌, ltb, Bool, not, Option, none, some, List, [], ◌∷◌, ◌++◌, if◌then◌else◌, keep,
  any, find, Text, codes, same, Result, ok, err, ◌>>◌, throw_if, invalid, conflict, not_found,
}
use wealthboard.World.{Instrument, SecurityPrice, ExchangeRate, World, ts_of}
use wealthboard.Engine.Ledgers.{Engine}
use wealthboard.Adapter.Entries.{Host, update_first}
use wealthboard.Adapter.Accounts.{or_default}

pub record PriceUpsert : Type 0 where
  pub instrument_id : ℕ
  pub price : Text
  pub effective_date : ℕ
  pub source : Option Text

abbrev pub is_price_at : ℕ → ℕ → SecurityPrice → Bool
is_price_at instrument_id stamp p = p.instrument_id == instrument_id && p.effective_date == stamp

abbrev pub edit_price : PriceUpsert → SecurityPrice → SecurityPrice
edit_price body p = record p {
  price = body.price;
  source = or_default body.source (codes "manual");
}

abbrev pub new_price : Host → PriceUpsert → Instrument → SecurityPrice
new_price h body i = record {
  id = h.random_id 0;
  instrument_id = i.id;
  price = body.price;
  currency = i.quote_currency;
  effective_date = ts_of body.effective_date;
  source = or_default body.source (codes "manual");
}

-- The existing price of the day is changed, or there is a new one.
unfoldable pub put_price : Host → PriceUpsert → Instrument → List SecurityPrice → List SecurityPrice
put_price h body i prices =
    let test = is_price_at i.id (ts_of body.effective_date) in
    if any test prices
    then update_first test (edit_price body) prices
    else prices ++ new_price h body i ∷ []

-- `prices.upsert`
unfoldable pub upsert_price : Host → PriceUpsert → Engine → Result World
upsert_price h body e = elim (find (λ i. i.id == body.instrument_id) e.world.instruments) [
  | none ↦ err not_found
  | some i ↦ do
    throw_if (ltb e.today body.effective_date) invalid
    ok (record e.world { prices = put_price h body i e.world.prices })
]

-- `prices.remove`
unfoldable pub remove_price : ℕ → Engine → Result World
remove_price id e = ok (record e.world { prices = keep (λ p. not (p.id == id)) e.world.prices })

pub record RateCreate : Type 0 where
  pub base_currency : Text
  pub quote_currency : Text
  pub rate : Text
  pub effective_date : ℕ

-- Whether a rate is for this pair of currencies, in either direction.
abbrev pub is_pair : Text → Text → ExchangeRate → Bool
is_pair base quote r =
    (same r.base_currency base && same r.quote_currency quote)
    || (same r.base_currency quote && same r.quote_currency base)

abbrev pub is_recorded : RateCreate → ExchangeRate → Bool
is_recorded body r =
    r.effective_date == ts_of body.effective_date
    && is_pair body.base_currency body.quote_currency r

abbrev pub new_rate : Host → RateCreate → ExchangeRate
new_rate h body = record {
  id = h.random_id 0;
  base_currency = body.base_currency;
  quote_currency = body.quote_currency;
  rate = body.rate;
  effective_date = ts_of body.effective_date;
}

-- `exchangeRates.create`
unfoldable pub create_rate : Host → RateCreate → Engine → Result World
create_rate h body e = do
  throw_if (same body.base_currency body.quote_currency) invalid
  throw_if (ltb e.today body.effective_date) invalid
  throw_if (any (is_recorded body) e.world.rates) conflict
  ok (record e.world { rates = e.world.rates ++ new_rate h body ∷ [] })

-- `exchangeRates.remove`
unfoldable pub remove_rate : ℕ → Engine → Result World
remove_rate id e = ok (record e.world { rates = keep (λ r. not (r.id == id)) e.world.rates })

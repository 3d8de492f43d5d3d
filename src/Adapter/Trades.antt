-- ===== src/Adapter/Trades.antt =====
-- The handlers of `positionEvents` in adapter.ts that write.
use wealthboard.Base.{
  ℕ, suc, ◌==◌, ◌&&◌, ltb, Bool, true, false, not, Option, none, some, [], ◌∷◌, ◌++◌, if◌then◌else◌,
  keep, any, find, ℤ, pos, neg, ltb_ℤ, leb_ℤ, ◌+ℤ◌, ◌-ℤ◌, Text, codes, same, Result, ok, err, ◌>>=◌,
  ◌>>◌, throw_if, invalid, insufficient, not_found, get_key,
}
use wealthboard.Decimal.{to_scaled, mul_to_minor, convert_minor, major_to_minor}
use wealthboard.World.{
  EventType, buy, sell, opening_position, quantity_adjustment, Instrument, AccountRecord, World,
  PositionEventRecord,
}
use wealthboard.Engine.Ledgers.{Engine}
use wealthboard.Engine.Lookup.{convert}
use wealthboard.Engine.Values.{quantities_at, or_zero}
use wealthboard.Adapter.Entries.{Host, is_positions, find_account, update_first}
use wealthboard.Adapter.Accounts.{or_default}

pub record TradeCreate : Type 0 where
  pub account_id : ℕ
  pub instrument_id : ℕ
  pub kind : EventType
  pub quantity : Text
  pub unit_price : Option Text
  pub applied_exchange_rate : Option Text
  pub fee_amount : Option Text
  pub trade_date : ℕ
  pub description : Option Text
  pub notes : Option Text

abbrev pub is_sale : EventType → Bool
is_sale sell = true
is_sale _ = false

unfoldable pub find_instrument : World → ℕ → Result Instrument
find_instrument w id = elim (find (λ i. i.id == id) w.instruments) [
  | none ↦ err invalid
  | some i ↦ ok i
]

-- `if (converted === null) throw …`
abbrev pub required : Option ℤ → Result ℤ
required none = err invalid
required (some v) = ok v

-- The value of the trade in the account's currency: at the applied rate, if there is one, or at the
-- recorded rate of the day. An empty text is no rate.
unfoldable pub gross_of : Engine → AccountRecord → Instrument → Option Text → ℕ → ℤ → Result ℤ
gross_of e a i none day gross =
    if same i.quote_currency a.currency
    then ok gross
    else (convert e gross i.quote_currency a.currency day >>= required)
gross_of e a i (some []) day gross =
    if same i.quote_currency a.currency
    then ok gross
    else (convert e gross i.quote_currency a.currency day >>= required)
gross_of e a i (some (c ∷ s)) day gross =
    if same i.quote_currency a.currency
    then ok gross
    else convert_minor gross i.quote_currency a.currency (c ∷ s) false

-- `body.feeAmount ? majorToMinor(body.feeAmount, a.currency) : 0n`
unfoldable pub fee_of : Option Text → Text → Result ℤ
fee_of none currency = ok (pos 0)
fee_of (some []) currency = ok (pos 0)
fee_of (some (c ∷ s)) currency = major_to_minor (c ∷ s) currency

-- `cash`: what the trade does to the cash of the account
unfoldable pub cash_of : EventType → ℤ → ℤ → ℤ
cash_of buy gross fee = neg (gross +ℤ fee)
cash_of sell gross fee = gross -ℤ fee
cash_of opening_position gross fee = pos 0
cash_of quantity_adjustment gross fee = pos 0

-- `${body.type === 'buy' ? 'Bought' : 'Sold'} ${body.quantity} ${inst.symbol ?? inst.name}`
unfoldable pub trade_text : EventType → Text → Instrument → Text
trade_text buy quantity i = codes "Bought " ++ quantity ++ codes " " ++ or_default i.symbol i.name
trade_text _ quantity i = codes "Sold " ++ quantity ++ codes " " ++ or_default i.symbol i.name

abbrev pub new_trade :
    Host → World → AccountRecord → Instrument → ℤ → ℤ → TradeCreate → PositionEventRecord
new_trade h w a i fee cash body = record {
  id = h.random_id 0;
  account_id = a.id;
  instrument_id = i.id;
  kind = body.kind;
  quantity = body.quantity;
  unit_price = or_default body.unit_price (codes "0");
  trade_currency = i.quote_currency;
  fee_minor = fee;
  cash_effect_minor = cash;
  date = body.trade_date;
  seq = w.seq;
  description = some (or_default body.description (trade_text body.kind body.quantity i));
  notes = body.notes;
  created_at = h.now;
}

abbrev pub push_trade : PositionEventRecord → World → World
push_trade p w = record w { position_events = w.position_events ++ p ∷ []; seq = suc w.seq }

-- `positionEvents.create`
unfoldable pub create_trade : Host → TradeCreate → Engine → Result World
create_trade h body e = do
  a ← find_account e.world body.account_id
  throw_if (not (is_positions a.tracking_mode)) invalid
  i ← find_instrument e.world body.instrument_id
  throw_if (ltb e.today body.trade_date) invalid
  quantity ← to_scaled body.quantity
  throw_if (leb_ℤ quantity (pos 0)) invalid
  quantities ← quantities_at e a.id body.trade_date
  throw_if (is_sale body.kind && ltb_ℤ (or_zero (get_key (λ x y. x == y) i.id quantities)) quantity)
      insufficient
  native ← mul_to_minor body.quantity (or_default body.unit_price (codes "0")) i.quote_currency
  gross ← gross_of e a i body.applied_exchange_rate body.trade_date native
  fee ← fee_of body.fee_amount a.currency
  ok (push_trade (new_trade h e.world a i fee (cash_of body.kind gross fee) body) e.world)

pub record TradeUpdate : Type 0 where
  pub quantity : Text
  pub unit_price : Option Text
  pub trade_date : ℕ
  pub description : Option Text
  pub notes : Option Text

-- The effect on the cash and the fee stay as they are.
abbrev pub edit_trade : TradeUpdate → PositionEventRecord → PositionEventRecord
edit_trade body p = record p {
  quantity = body.quantity;
  unit_price = or_default body.unit_price p.unit_price;
  date = body.trade_date;
  description = body.description;
  notes = body.notes;
}

-- `positionEvents.update`
unfoldable pub update_trade : ℕ → TradeUpdate → Engine → Result World
update_trade id body e = do
  throw_if (not (any (λ p. p.id == id) e.world.position_events)) not_found
  ok (record e.world {
    position_events = update_first (λ p. p.id == id) (edit_trade body) e.world.position_events;
  })

-- `positionEvents.remove`
unfoldable pub remove_trade : ℕ → Engine → Result World
remove_trade id e =
    ok (record e.world { position_events = keep (λ p. not (p.id == id)) e.world.position_events })

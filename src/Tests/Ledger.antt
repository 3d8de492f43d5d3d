-- ===== src/Tests/Ledger.antt =====
-- The theorems on the engine at a small ledger.
use wealthboard.Base.{
  [], every, ◌≡◌, ◌≤◌, refl, inl, ◌||◌, true, some, same, pos, ◌+ℤ◌, ◌-ℤ◌, ◌*ℤ◌, ok, codes, arith,
  Member, digits_value, show_digits, set_key, get_key,
}
use wealthboard.World.{ExchangeRate, SecurityPrice, date_of}
use wealthboard.Decimal.{
  mul_to_minor, from_scaled, to_scaled, convert_minor, div_round, rounded, big_int, before_dot,
  after_dot, strip_zeros,
}
use wealthboard.Money.{minor_exponent}
use wealthboard.Engine.Ledgers.{txns, events, valuations, prices_of, txn_effect}
use wealthboard.Engine.Lookup.{
  Quote, is_direct, is_inverse, account, category, instrument, is_liability, price_at, last_price,
  consider, best_rate, rate_at, convert,
}
use wealthboard.Engine.Values.{
  cash_at, value_at, plain_value, unique, add_quantities, quantities_at, sum_until, holding_value,
  add_holding, positions_value, replay, base_value_at,
}
use wealthboard.Engine.Totals.{Totals, active_at, add_value, add_account, totals_at}
use wealthboard.Engine.Flows.{
  FlowsResult, flow_kind, add_flow, add_txn_flow, add_event_flow, add_account_flows, flows_between,
}
use wealthboard.Engine.Order.{sum_over}
use wealthboard.Engine.Cash.{cash_at-sum, txn_share, event_share}
use wealthboard.Engine.Replay.{value_at-balance, described, latest}
use wealthboard.Engine.Quotes.{price_at-best, rate_at-best, rate_at_sound}
use wealthboard.Engine.Periods.{flows_between-join, AddUp}
use wealthboard.Engine.Worth.{totals_at-worth, totals_at-complete, worth, is_known}
use wealthboard.Tests.{engine, savings, share_price, dollar_rate}

savings_found : account engine 1 ≡ some savings
unfolding account
savings_found = refl

value_at-balance_example :
    value_at engine 1 13
    ≡ ok (plain_value (described 13 (pos 0) (txns engine 1) (latest 13 (valuations engine 1))))
value_at-balance_example = value_at-balance engine 1 13 savings savings_found refl

cash_at-sum_example :
    cash_at engine 2 13
    ≡ sum_over (txn_share 2 13) engine.world.transactions
      +ℤ sum_over (event_share 2 13) engine.world.position_events
cash_at-sum_example = cash_at-sum engine 2 13

price_at-best_example :
    (p : SecurityPrice) × (price_at engine 7 15 ≡ some p)
    × ((p.instrument_id ≡ 7)
        × (date_of p.effective_date ≤ 15)
        × (date_of share_price.effective_date ≤ date_of p.effective_date))
price_at-best_example = price_at-best engine 7 15 share_price (inl refl) refl (omega arith)

goes_back :
    (is_direct (codes "KES") (codes "USD") dollar_rate
      || is_inverse (codes "KES") (codes "USD") dollar_rate)
    ≡ true
unfolding same
goes_back = refl

rate_at-best_example :
    (q : Quote) × (rate_at engine (codes "KES") (codes "USD") 15 ≡ some q)
    × (date_of dollar_rate.effective_date ≤ q.date)
    × (q.date ≤ 15)
rate_at-best_example =
    rate_at-best engine (codes "KES") (codes "USD") 15 dollar_rate (inl refl) goes_back
      (omega arith)

abbrev inverse : Quote
inverse = record { rate = codes "130"; invert = true; date = 10 }

rate_found : rate_at engine (codes "KES") (codes "USD") 15 ≡ some inverse
unfolding rate_at best_rate consider same
rate_found = refl

rate_at_sound_example :
    (r : ExchangeRate) × Member r engine.world.rates
    × (((is_direct (codes "KES") (codes "USD") r || is_inverse (codes "KES") (codes "USD") r)
          ≡ true)
        × (date_of r.effective_date ≤ 15))
    × ((inverse.rate ≡ r.rate)
        × (inverse.invert ≡ is_inverse (codes "KES") (codes "USD") r)
        × (inverse.date ≡ date_of r.effective_date))
rate_at_sound_example = rate_at_sound engine (codes "KES") (codes "USD") 15 inverse rate_found

abbrev first_days : FlowsResult
first_days = record {
  start = pos 0;
  end = pos 432750;
  contributions = pos 500;
  withdrawals = pos 0;
  incomes = pos 0;
  fees = pos 3250;
  growth = pos 435500;
  complete = true;
}

abbrev later_days : FlowsResult
later_days = record {
  start = pos 432750;
  end = pos 472950;
  contributions = pos 700;
  withdrawals = pos 0;
  incomes = pos 0;
  fees = pos 0;
  growth = pos 39500;
  complete = true;
}

first_flows : flows_between engine 0 11 ≡ ok first_days
unfolding flows_between add_account_flows add_txn_flow add_event_flow add_flow flow_kind txns events
    valuations prices_of txn_effect account category instrument is_liability price_at last_price
    consider best_rate rate_at convert cash_at value_at unique add_quantities quantities_at
    sum_until holding_value add_holding positions_value replay base_value_at active_at add_value
    add_account totals_at mul_to_minor from_scaled to_scaled convert_minor div_round rounded big_int
    before_dot after_dot strip_zeros minor_exponent same ◌+ℤ◌ ◌-ℤ◌ ◌*ℤ◌ digits_value show_digits
    set_key get_key
first_flows = refl

later_flows : flows_between engine 11 20 ≡ ok later_days
unfolding flows_between add_account_flows add_txn_flow add_event_flow add_flow flow_kind txns events
    valuations prices_of txn_effect account category instrument is_liability price_at last_price
    consider best_rate rate_at convert cash_at value_at unique add_quantities quantities_at
    sum_until holding_value add_holding positions_value replay base_value_at active_at add_value
    add_account totals_at mul_to_minor from_scaled to_scaled convert_minor div_round rounded big_int
    before_dot after_dot strip_zeros minor_exponent same ◌+ℤ◌ ◌-ℤ◌ ◌*ℤ◌ digits_value show_digits
    set_key get_key
later_flows = refl

flows_between-join_example :
    (w : FlowsResult) × (flows_between engine 0 20 ≡ ok w) × AddUp w first_days later_days
flows_between-join_example =
    flows_between-join engine 0 11 20 (omega arith) (omega arith) first_days later_days first_flows
      later_flows

abbrev totals_of_20 : Totals
totals_of_20 = record {
  assets = pos 472950;
  liabilities = pos 0;
  net_worth = pos 472950;
  liquid = pos 472950;
  investible = pos 472950;
  complete = true;
  missing_currencies = [];
}

totals_computed : totals_at engine 20 ≡ ok totals_of_20
unfolding flows_between add_account_flows add_txn_flow add_event_flow add_flow flow_kind txns events
    valuations prices_of txn_effect account category instrument is_liability price_at last_price
    consider best_rate rate_at convert cash_at value_at unique add_quantities quantities_at
    sum_until holding_value add_holding positions_value replay base_value_at active_at add_value
    add_account totals_at mul_to_minor from_scaled to_scaled convert_minor div_round rounded big_int
    before_dot after_dot strip_zeros minor_exponent same ◌+ℤ◌ ◌-ℤ◌ ◌*ℤ◌ digits_value show_digits
    set_key get_key
totals_computed = refl

totals_at-worth_example : pos 472950 ≡ sum_over (worth engine 20) engine.world.accounts
totals_at-worth_example = totals_at-worth engine 20 totals_of_20 totals_computed

totals_at-complete_example : true ≡ every (is_known engine 20) engine.world.accounts
totals_at-complete_example = totals_at-complete engine 20 totals_of_20 totals_computed

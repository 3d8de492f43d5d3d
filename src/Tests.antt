-- ===== src/Tests.antt =====
-- A small ledger, and the theorems at concrete inputs.
mod Figures
mod Ledger
mod Plans
mod Writes
mod Wills
mod Requests
mod Texts
use wealthboard.Base.{ℕ, true, false, none, some, [], ◌∷◌, pos, codes}
use wealthboard.World.{
  TxnRecord, opening_balance, deposit, withdrawal, fee, ValuationRecord, PositionEventRecord, buy,
  AccountRecord, balance, positions, GoalRecord, active, monthly, Category, asset, Instrument,
  stock, SecurityPrice, ExchangeRate, UserSettings, World, ts_of,
}
use wealthboard.Engine.Ledgers.{Engine}

abbrev pub txn_of : ℕ → ℕ → ℕ → TxnRecord
txn_of id date amount = record {
  id = id;
  account_id = 1;
  kind = deposit;
  amount_minor = pos amount;
  date = date;
  seq = id;
  description = none;
  notes = none;
  external_id = none;
  transfer_group_id = none;
  instrument_id = none;
  created_at = 0;
}

abbrev pub count_of_day_12 : ValuationRecord
count_of_day_12 = record {
  id = 9;
  account_id = 1;
  value_minor = pos 40000;
  date = 12;
  seq = 9;
  notes = none;
  created_at = 0;
}

abbrev pub trade : PositionEventRecord
trade = record {
  id = 1;
  account_id = 2;
  instrument_id = 7;
  kind = buy;
  quantity = codes "1.5";
  unit_price = codes "10";
  trade_currency = codes "USD";
  fee_minor = pos 25;
  cash_effect_minor = pos 1525;
  date = 11;
  seq = 4;
  description = none;
  notes = none;
  created_at = 0;
}

abbrev pub savings : AccountRecord
savings = record {
  id = 1;
  name = codes "Savings";
  description = none;
  category_id = 3;
  institution_id = none;
  currency = codes "KES";
  tracking_mode = balance;
  is_included_in_net_worth = true;
  cost_basis_minor = none;
  account_reference = none;
  notes = none;
  opened_at = 1;
  archived_at = none;
}

abbrev pub broker : AccountRecord
broker = record savings { id = 2; currency = codes "USD"; tracking_mode = positions }

abbrev pub liquid_assets : Category
liquid_assets = record {
  id = 3;
  name = codes "Cash";
  display_order = 1;
  asset_or_liability = asset;
  is_liquid = true;
  is_investible = true;
  is_archived = false;
}

abbrev pub share : Instrument
share = record {
  id = 7;
  name = codes "Share";
  symbol = none;
  asset_type = stock;
  quote_currency = codes "USD";
  archived_at = none;
}

abbrev pub share_price : SecurityPrice
share_price = record {
  id = 1;
  instrument_id = 7;
  price = codes "12";
  currency = codes "USD";
  effective_date = ts_of 11;
  source = codes "manual";
}

abbrev pub dollar_rate : ExchangeRate
dollar_rate = record {
  id = 1;
  base_currency = codes "USD";
  quote_currency = codes "KES";
  rate = codes "130";
  effective_date = ts_of 10;
}

abbrev pub settings : UserSettings
settings = record {
  base_currency = codes "KES";
  supported_currencies = codes "KES" ∷ codes "USD" ∷ [];
  position_stale_days_stock = 7;
  position_stale_days_etf = 7;
  position_stale_days_fund = 30;
}

abbrev pub ledger : World
ledger = record {
  settings = settings;
  categories = liquid_assets ∷ [];
  instruments = share ∷ [];
  prices = share_price ∷ [];
  rates = dollar_rate ∷ [];
  accounts = savings ∷ broker ∷ [];
  transactions = txn_of 3 13 700 ∷ txn_of 2 11 500 ∷ [];
  valuations = count_of_day_12 ∷ [];
  position_events = trade ∷ [];
  goals = [];
  milestones = [];
  dismissed_alerts = [];
  version = 0;
  seq = 20;
}

abbrev pub engine : Engine
engine = record { world = ledger; today = 20 }

abbrev pub house : GoalRecord
house = record {
  id = 1;
  name = codes "House";
  description = none;
  target_minor = pos 100000;
  manual_current_minor = pos 20000;
  currency = codes "USD";
  target_date = 200;
  linked_account_id = none;
  icon = [];
  status = active;
  priority = 1;
  assumed_annual_return_bps = pos 500;
  planned_contribution_minor = pos 1000;
  frequency = monthly;
  plan_start_date = 10;
  plan_end_date = none;
}

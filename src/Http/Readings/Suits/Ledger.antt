-- ===== src/Http/Readings/Suits/Ledger.antt =====
-- web/src/api/http/httpAdapter.ts: how the calls on the ledger and the holdings
-- read, against the answers of their operations.
use wealthboard.Base.{true, ◌≡◌, refl, same}
use wealthboard.Http.Readings.Each.{
  dashboard_reading, accounts_reading, activity_reading, transactions_reading, valuations_reading,
  transfers_reading, instruments_reading, prices_reading, position_events_reading,
  reconciliations_reading, conversions_reading, corporate_actions_reading,
}
use wealthboard.Http.Routes.Expected.Books.{
  dashboard_operation, accounts_operation, activity_operation, transactions_operation,
  valuations_operation, transfers_operation,
}
use wealthboard.Http.Routes.Expected.Positions.{
  instruments_operation, prices_operation, position_events_operation, reconciliations_operation,
  conversions_operation, corporate_actions_operation,
}
use wealthboard.Http.Calls.{
  DashboardCall, dashboard_get, AccountsCall, accounts_list, accounts_summaries, accounts_get,
  accounts_create, accounts_update, accounts_set_archived, accounts_remove, accounts_analytics,
  accounts_extras, accounts_activity, accounts_transactions, accounts_valuations,
  accounts_position_events, ActivityCall, activity_list, TransactionsCall, transactions_create,
  transactions_update, transactions_remove, ValuationsCall, valuations_create, valuations_remove,
  TransfersCall, transfers_create, InstrumentsCall, instruments_list, instruments_get,
  instruments_holdings, instruments_create, instruments_update, instruments_set_archived,
  instruments_remove, PricesCall, prices_upsert, prices_remove, PositionEventsCall,
  position_events_get, position_events_create, position_events_update, position_events_remove,
  ReconciliationsCall, reconciliations_list, reconciliations_create, reconciliations_remove,
  ConversionsCall, conversions_preview, conversions_execute, CorporateActionsCall,
  corporate_actions_create, corporate_actions_remove,
}
use wealthboard.Http.Inputs.{
  stock_splits, spinoffs, mergers, dividend_reinvestments, in_kind_transfers,
}
use wealthboard.Http.Readings.Answers.{suits_all}

pub suits_all-dashboard_reading :
    (x : DashboardCall) → suits_all (dashboard_reading x) (dashboard_operation x).answers ≡ true
unfolding suits_all same
suits_all-dashboard_reading (dashboard_get r) = refl

pub suits_all-accounts_reading :
    (x : AccountsCall) → suits_all (accounts_reading x) (accounts_operation x).answers ≡ true
unfolding suits_all same
suits_all-accounts_reading (accounts_list a) = refl
suits_all-accounts_reading accounts_summaries = refl
suits_all-accounts_reading (accounts_get i) = refl
suits_all-accounts_reading (accounts_create b) = refl
suits_all-accounts_reading (accounts_update i b) = refl
suits_all-accounts_reading (accounts_set_archived i a) = refl
suits_all-accounts_reading (accounts_remove i n) = refl
suits_all-accounts_reading (accounts_analytics i) = refl
suits_all-accounts_reading (accounts_extras i) = refl
suits_all-accounts_reading (accounts_activity i q) = refl
suits_all-accounts_reading (accounts_transactions i q) = refl
suits_all-accounts_reading (accounts_valuations i q) = refl
suits_all-accounts_reading (accounts_position_events i q) = refl

pub suits_all-activity_reading :
    (x : ActivityCall) → suits_all (activity_reading x) (activity_operation x).answers ≡ true
unfolding suits_all same
suits_all-activity_reading (activity_list q) = refl

pub suits_all-transactions_reading :
    (x : TransactionsCall)
    → suits_all (transactions_reading x) (transactions_operation x).answers ≡ true
unfolding suits_all same
suits_all-transactions_reading (transactions_create b) = refl
suits_all-transactions_reading (transactions_update i b) = refl
suits_all-transactions_reading (transactions_remove i) = refl

pub suits_all-valuations_reading :
    (x : ValuationsCall) → suits_all (valuations_reading x) (valuations_operation x).answers ≡ true
unfolding suits_all same
suits_all-valuations_reading (valuations_create b) = refl
suits_all-valuations_reading (valuations_remove i) = refl

pub suits_all-transfers_reading :
    (x : TransfersCall) → suits_all (transfers_reading x) (transfers_operation x).answers ≡ true
unfolding suits_all same
suits_all-transfers_reading (transfers_create b) = refl

pub suits_all-instruments_reading :
    (x : InstrumentsCall)
    → suits_all (instruments_reading x) (instruments_operation x).answers ≡ true
unfolding suits_all same
suits_all-instruments_reading instruments_list = refl
suits_all-instruments_reading (instruments_get i) = refl
suits_all-instruments_reading (instruments_holdings i) = refl
suits_all-instruments_reading (instruments_create b) = refl
suits_all-instruments_reading (instruments_update i b) = refl
suits_all-instruments_reading (instruments_set_archived i a) = refl
suits_all-instruments_reading (instruments_remove i) = refl

pub suits_all-prices_reading :
    (x : PricesCall) → suits_all (prices_reading x) (prices_operation x).answers ≡ true
unfolding suits_all same
suits_all-prices_reading (prices_upsert b k) = refl
suits_all-prices_reading (prices_remove i) = refl

pub suits_all-position_events_reading :
    (x : PositionEventsCall)
    → suits_all (position_events_reading x) (position_events_operation x).answers ≡ true
unfolding suits_all same
suits_all-position_events_reading (position_events_get i j) = refl
suits_all-position_events_reading (position_events_create b) = refl
suits_all-position_events_reading (position_events_update i b) = refl
suits_all-position_events_reading (position_events_remove i) = refl

pub suits_all-reconciliations_reading :
    (x : ReconciliationsCall)
    → suits_all (reconciliations_reading x) (reconciliations_operation x).answers ≡ true
unfolding suits_all same
suits_all-reconciliations_reading (reconciliations_list i q) = refl
suits_all-reconciliations_reading (reconciliations_create b) = refl
suits_all-reconciliations_reading (reconciliations_remove i) = refl

pub suits_all-conversions_reading :
    (x : ConversionsCall)
    → suits_all (conversions_reading x) (conversions_operation x).answers ≡ true
unfolding suits_all same
suits_all-conversions_reading (conversions_preview b k) = refl
suits_all-conversions_reading (conversions_execute b k) = refl

pub suits_all-corporate_actions_reading :
    (x : CorporateActionsCall)
    → suits_all (corporate_actions_reading x) (corporate_actions_operation x).answers ≡ true
unfolding suits_all same
suits_all-corporate_actions_reading (corporate_actions_create stock_splits b k) = refl
suits_all-corporate_actions_reading (corporate_actions_create spinoffs b k) = refl
suits_all-corporate_actions_reading (corporate_actions_create mergers b k) = refl
suits_all-corporate_actions_reading (corporate_actions_create dividend_reinvestments b k) = refl
suits_all-corporate_actions_reading (corporate_actions_create in_kind_transfers b k) = refl
suits_all-corporate_actions_reading (corporate_actions_remove i) = refl

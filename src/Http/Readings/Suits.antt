-- ===== src/Http/Readings/Suits.antt =====
-- web/src/api/http/httpAdapter.ts: how every call reads, against the answers of its operation.
pub mod Ledger
pub mod Plans
pub mod Files
use wealthboard.Base.{true, ◌≡◌}
use wealthboard.Http.Readings.Each.{reading}
use wealthboard.Http.Routes.Expected.{operation}
use wealthboard.Http.Readings.Suits.Ledger.{
  suits_all-dashboard_reading, suits_all-accounts_reading, suits_all-activity_reading,
  suits_all-transactions_reading, suits_all-valuations_reading, suits_all-transfers_reading,
  suits_all-instruments_reading, suits_all-prices_reading, suits_all-position_events_reading,
  suits_all-reconciliations_reading, suits_all-conversions_reading,
  suits_all-corporate_actions_reading,
}
use wealthboard.Http.Readings.Suits.Plans.{
  suits_all-estate_reading, suits_all-api_keys_reading, suits_all-connected_apps_reading,
  suits_all-oauth_reading, suits_all-goals_reading, suits_all-reports_reading,
  suits_all-settings_reading, suits_all-categories_reading, suits_all-institutions_reading,
  suits_all-exchange_rates_reading,
}
use wealthboard.Http.Readings.Suits.Files.{
  suits_all-auth_reading, suits_all-imports_reading, suits_all-exports_reading,
}
use wealthboard.Http.Calls.{
  Call, auth, dashboard, accounts, activity, transactions, valuations, transfers, instruments,
  prices, position_events, reconciliations, conversions, corporate_actions, estate, api_keys,
  connected_apps, oauth, goals, reports, settings, categories, institutions, exchange_rates,
  imports, exports,
}
use wealthboard.Http.Readings.Answers.{suits_all}

pub suits_all-reading : (x : Call) → suits_all (reading x) (operation x).answers ≡ true
suits_all-reading (auth x) = suits_all-auth_reading x
suits_all-reading (dashboard x) = suits_all-dashboard_reading x
suits_all-reading (accounts x) = suits_all-accounts_reading x
suits_all-reading (activity x) = suits_all-activity_reading x
suits_all-reading (transactions x) = suits_all-transactions_reading x
suits_all-reading (valuations x) = suits_all-valuations_reading x
suits_all-reading (transfers x) = suits_all-transfers_reading x
suits_all-reading (instruments x) = suits_all-instruments_reading x
suits_all-reading (prices x) = suits_all-prices_reading x
suits_all-reading (position_events x) = suits_all-position_events_reading x
suits_all-reading (reconciliations x) = suits_all-reconciliations_reading x
suits_all-reading (conversions x) = suits_all-conversions_reading x
suits_all-reading (corporate_actions x) = suits_all-corporate_actions_reading x
suits_all-reading (estate x) = suits_all-estate_reading x
suits_all-reading (api_keys x) = suits_all-api_keys_reading x
suits_all-reading (connected_apps x) = suits_all-connected_apps_reading x
suits_all-reading (oauth x) = suits_all-oauth_reading x
suits_all-reading (goals x) = suits_all-goals_reading x
suits_all-reading (reports x) = suits_all-reports_reading x
suits_all-reading (settings x) = suits_all-settings_reading x
suits_all-reading (categories x) = suits_all-categories_reading x
suits_all-reading (institutions x) = suits_all-institutions_reading x
suits_all-reading (exchange_rates x) = suits_all-exchange_rates_reading x
suits_all-reading (imports x) = suits_all-imports_reading x
suits_all-reading (exports x) = suits_all-exports_reading x

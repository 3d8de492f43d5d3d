-- ===== src/Http/Routes/Expected.antt =====
-- Which operation of web/src/api/schema.ts each call of web/src/api/datasource.ts is for.
pub mod Books
pub mod Positions
pub mod Wills
pub mod Plans
pub mod Files
use wealthboard.Contract.{Operation}
use wealthboard.Http.Routes.Expected.Books.{
  dashboard_operation, accounts_operation, activity_operation, transactions_operation,
  valuations_operation, transfers_operation,
}
use wealthboard.Http.Routes.Expected.Positions.{
  instruments_operation, prices_operation, position_events_operation, reconciliations_operation,
  conversions_operation, corporate_actions_operation,
}
use wealthboard.Http.Routes.Expected.Wills.{
  estate_operation, api_keys_operation, connected_apps_operation, oauth_operation,
}
use wealthboard.Http.Routes.Expected.Plans.{
  goals_operation, reports_operation, settings_operation, categories_operation,
  institutions_operation, exchange_rates_operation,
}
use wealthboard.Http.Routes.Expected.Files.{auth_operation, imports_operation, exports_operation}
use wealthboard.Http.Calls.{
  Call, auth, dashboard, accounts, activity, transactions, valuations, transfers, instruments,
  prices, position_events, reconciliations, conversions, corporate_actions, estate, api_keys,
  connected_apps, oauth, goals, reports, settings, categories, institutions, exchange_rates,
  imports, exports,
}

abbrev pub operation : Call → Operation
operation (auth c) = auth_operation c
operation (dashboard c) = dashboard_operation c
operation (accounts c) = accounts_operation c
operation (activity c) = activity_operation c
operation (transactions c) = transactions_operation c
operation (valuations c) = valuations_operation c
operation (transfers c) = transfers_operation c
operation (instruments c) = instruments_operation c
operation (prices c) = prices_operation c
operation (position_events c) = position_events_operation c
operation (reconciliations c) = reconciliations_operation c
operation (conversions c) = conversions_operation c
operation (corporate_actions c) = corporate_actions_operation c
operation (estate c) = estate_operation c
operation (api_keys c) = api_keys_operation c
operation (connected_apps c) = connected_apps_operation c
operation (oauth c) = oauth_operation c
operation (goals c) = goals_operation c
operation (reports c) = reports_operation c
operation (settings c) = settings_operation c
operation (categories c) = categories_operation c
operation (institutions c) = institutions_operation c
operation (exchange_rates c) = exchange_rates_operation c
operation (imports c) = imports_operation c
operation (exports c) = exports_operation c

-- ===== src/Http/Requests.antt =====
-- web/src/api/http/httpAdapter.ts: `createHttpDataSource`, as the request that each call sends.
pub mod Sessions
pub mod Books
pub mod Positions
pub mod Wills
pub mod Plans
pub mod Files
use wealthboard.Base.{Option, Text}
use wealthboard.Http.{Request}
use wealthboard.Http.Requests.Sessions.{auth_request}
use wealthboard.Http.Requests.Books.{
  dashboard_request, accounts_request, activity_request, transactions_request, valuations_request,
  transfers_request,
}
use wealthboard.Http.Requests.Positions.{
  instruments_request, prices_request, position_events_request, reconciliations_request,
  conversions_request, corporate_actions_request,
}
use wealthboard.Http.Requests.Wills.{
  estate_request, api_keys_request, connected_apps_request, oauth_request_of,
}
use wealthboard.Http.Requests.Plans.{
  goals_request, reports_request, settings_request, categories_request, institutions_request,
  exchange_rates_request,
}
use wealthboard.Http.Requests.Files.{imports_request, exports_request}
use wealthboard.Http.Calls.{
  Call, auth, dashboard, accounts, activity, transactions, valuations, transfers, instruments,
  prices, position_events, reconciliations, conversions, corporate_actions, estate, api_keys,
  connected_apps, oauth, goals, reports, settings, categories, institutions, exchange_rates,
  imports, exports,
}

unfoldable pub request : Option Text → Call → Request
unfolding auth_request dashboard_request accounts_request activity_request transactions_request
    valuations_request transfers_request instruments_request prices_request position_events_request
    reconciliations_request conversions_request corporate_actions_request estate_request
    api_keys_request connected_apps_request oauth_request_of goals_request reports_request
    settings_request categories_request institutions_request exchange_rates_request imports_request
    exports_request
request token (auth c) = auth_request token c
request token (dashboard c) = dashboard_request token c
request token (accounts c) = accounts_request token c
request token (activity c) = activity_request token c
request token (transactions c) = transactions_request token c
request token (valuations c) = valuations_request token c
request token (transfers c) = transfers_request token c
request token (instruments c) = instruments_request token c
request token (prices c) = prices_request token c
request token (position_events c) = position_events_request token c
request token (reconciliations c) = reconciliations_request token c
request token (conversions c) = conversions_request token c
request token (corporate_actions c) = corporate_actions_request token c
request token (estate c) = estate_request token c
request token (api_keys c) = api_keys_request token c
request token (connected_apps c) = connected_apps_request token c
request token (oauth c) = oauth_request_of token c
request token (goals c) = goals_request token c
request token (reports c) = reports_request token c
request token (settings c) = settings_request token c
request token (categories c) = categories_request token c
request token (institutions c) = institutions_request token c
request token (exchange_rates c) = exchange_rates_request token c
request token (imports c) = imports_request token c
request token (exports c) = exports_request token c

-- ===== src/Http/Routes/Whole.antt =====
-- web/src/api/http/httpAdapter.ts: every request against the contract.
use wealthboard.Base.{ℕ, List, [], ◌∷◌, All, Text, some}
use wealthboard.Http.Requests.{request}
use wealthboard.Http.Routes.Expected.{operation}
use wealthboard.Http.Routes.Books.{
  dashboard_request-Conforms, accounts_request-Conforms, activity_request-Conforms,
  transactions_request-Conforms, valuations_request-Conforms, transfers_request-Conforms,
  accounts_ids,
}
use wealthboard.Http.Routes.Positions.{
  instruments_request-Conforms, prices_request-Conforms, position_events_request-Conforms,
  reconciliations_request-Conforms, conversions_request-Conforms,
  corporate_actions_request-Conforms, instruments_ids, position_events_ids, reconciliations_ids,
  corporate_actions_ids,
}
use wealthboard.Http.Routes.Wills.{
  estate_request-Conforms, api_keys_request-Conforms, connected_apps_request-Conforms,
  oauth_request_of-Conforms, estate_ids, api_keys_ids, connected_apps_ids, oauth_ids,
}
use wealthboard.Http.Routes.Plans.{
  goals_request-Conforms, reports_request-Conforms, settings_request-Conforms,
  categories_request-Conforms, institutions_request-Conforms, exchange_rates_request-Conforms,
}
use wealthboard.Http.Routes.Files.{
  auth_request-Conforms, imports_request-Conforms, exports_request-Conforms, imports_ids,
}
use wealthboard.Http.Calls.{
  Call, auth, dashboard, accounts, activity, transactions, valuations, transfers, instruments,
  prices, position_events, reconciliations, conversions, corporate_actions, estate, api_keys,
  connected_apps, oauth, goals, reports, settings, categories, institutions, exchange_rates,
  imports, exports,
}
use wealthboard.Http.Routes.{Conforms}
use wealthboard.Http.Routes.Segments.{IsSegment}

-- The IDs that a call writes into the path of a raw request.
abbrev pub ids : Call → List Text
ids (accounts x) = accounts_ids x
ids (instruments x) = instruments_ids x
ids (position_events x) = position_events_ids x
ids (reconciliations x) = reconciliations_ids x
ids (corporate_actions x) = corporate_actions_ids x
ids (estate x) = estate_ids x
ids (api_keys x) = api_keys_ids x
ids (connected_apps x) = connected_apps_ids x
ids (oauth x) = oauth_ids x
ids (imports x) = imports_ids x
ids _ = []

-- When the adapter holds a token that is not empty and the IDs written into raw paths are segments, the request of every call of the data source is for exactly one operation of the contract, the call's own, and gives the path parameters, the required query and header parameters and a body of an admitted media type, and no query parameter that the operation does not declare.
pub request-Conforms :
    (first : ℕ) (tail : Text) (x : Call)
    → All IsSegment (ids x)
    → Conforms (request (some (first ∷ tail)) x) (operation x)
unfolding request
request-Conforms first tail (auth x) h = auth_request-Conforms first tail x
request-Conforms first tail (dashboard x) h = dashboard_request-Conforms first tail x
request-Conforms first tail (accounts x) h = accounts_request-Conforms first tail x h
request-Conforms first tail (activity x) h = activity_request-Conforms first tail x
request-Conforms first tail (transactions x) h = transactions_request-Conforms first tail x
request-Conforms first tail (valuations x) h = valuations_request-Conforms first tail x
request-Conforms first tail (transfers x) h = transfers_request-Conforms first tail x
request-Conforms first tail (instruments x) h = instruments_request-Conforms first tail x h
request-Conforms first tail (prices x) h = prices_request-Conforms first tail x
request-Conforms first tail (position_events x) h = position_events_request-Conforms first tail x h
request-Conforms first tail (reconciliations x) h = reconciliations_request-Conforms first tail x h
request-Conforms first tail (conversions x) h = conversions_request-Conforms first tail x
request-Conforms first tail (corporate_actions x) h =
    corporate_actions_request-Conforms first tail x h
request-Conforms first tail (estate x) h = estate_request-Conforms first tail x h
request-Conforms first tail (api_keys x) h = api_keys_request-Conforms first tail x h
request-Conforms first tail (connected_apps x) h = connected_apps_request-Conforms first tail x h
request-Conforms first tail (oauth x) h = oauth_request_of-Conforms first tail x h
request-Conforms first tail (goals x) h = goals_request-Conforms first tail x
request-Conforms first tail (reports x) h = reports_request-Conforms first tail x
request-Conforms first tail (settings x) h = settings_request-Conforms first tail x
request-Conforms first tail (categories x) h = categories_request-Conforms first tail x
request-Conforms first tail (institutions x) h = institutions_request-Conforms first tail x
request-Conforms first tail (exchange_rates x) h = exchange_rates_request-Conforms first tail x
request-Conforms first tail (imports x) h = imports_request-Conforms first tail x h
request-Conforms first tail (exports x) h = exports_request-Conforms first tail x

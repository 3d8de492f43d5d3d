-- ===== src/Http/Requests/Books.antt =====
-- web/src/api/http/httpAdapter.ts: the requests of the dashboard, accounts, activity and the ledger.
use wealthboard.Base.{[], ◌∷◌, ◌++◌, Option, none, some, Text, codes}
use wealthboard.Http.Calls.{
  DashboardCall, dashboard_get, AccountsCall, accounts_list, accounts_summaries, accounts_get,
  accounts_create, accounts_update, accounts_set_archived, accounts_remove, accounts_analytics,
  accounts_extras, accounts_activity, accounts_transactions, accounts_valuations,
  accounts_position_events, ActivityCall, activity_list, TransactionsCall, transactions_create,
  transactions_update, transactions_remove, ValuationsCall, valuations_create, valuations_remove,
  TransfersCall, transfers_create,
}
use wealthboard.Http.Inputs.{
  ArchivedFilter, only_active, range_text, archived_text, paging, page, activity_entries,
}
use wealthboard.Http.{empty, json, Request}
use wealthboard.Http.Transport.{typed, raw, get_json, send_json}
use wealthboard.Json.{
  json_bool, json_text, json_object, no_fields, field, get_field, set_field, as_text,
}
use wealthboard.Contract.{get, post, delete, patch}

unfoldable pub dashboard_request : Option Text → DashboardCall → Request
unfolding typed raw get_json send_json get_field set_field
dashboard_request token (dashboard_get range) =
    typed token get "/dashboard" [] (("range", some (range_text range)) ∷ []) [] empty

-- `archived = 'active'`
abbrev or_active : Option ArchivedFilter → ArchivedFilter
or_active none = only_active
or_active (some a) = a

unfoldable pub accounts_request : Option Text → AccountsCall → Request
unfolding typed raw get_json send_json get_field set_field
accounts_request token (accounts_list archived) =
    typed token get "/accounts" [] (("archived", some (archived_text (or_active archived))) ∷ []) []
      empty
accounts_request token accounts_summaries = get_json token (codes "/accounts/summaries") []
accounts_request token (accounts_get id) =
    typed token get "/accounts/{accountID}" (("accountID", id) ∷ []) [] [] empty
accounts_request token (accounts_create body) =
    typed token post "/accounts" [] []
      (("Idempotency-Key", as_text (get_field "idempotencyKey" body)) ∷ [])
      (json (json_object body))
accounts_request token (accounts_update id body) =
    typed token patch "/accounts/{accountID}" (("accountID", id) ∷ []) [] []
      (json (json_object body))
accounts_request token (accounts_set_archived id archived) =
    typed token post "/accounts/{accountID}/archive" (("accountID", id) ∷ []) [] []
      (json (json_object (field "archived" (json_bool archived) no_fields)))
accounts_request token (accounts_remove id name) =
    typed token delete "/accounts/{accountID}" (("accountID", id) ∷ []) [] []
      (json (json_object (field "confirmationName" (json_text name) no_fields)))
accounts_request token (accounts_analytics id) =
    typed token get "/accounts/{accountID}/analytics" (("accountID", id) ∷ []) [] [] empty
accounts_request token (accounts_extras id) =
    get_json token (codes "/accounts/" ++ id ++ codes "/extras") []
accounts_request token (accounts_activity id q) =
    typed token get "/accounts/{accountID}/activity" (("accountID", id) ∷ []) (page q) [] empty
accounts_request token (accounts_transactions id q) =
    typed token get "/accounts/{accountID}/transactions" (("accountID", id) ∷ []) (page q) [] empty
accounts_request token (accounts_valuations id q) =
    typed token get "/accounts/{accountID}/valuations" (("accountID", id) ∷ []) (page q) [] empty
accounts_request token (accounts_position_events id q) =
    typed token get "/accounts/{accountID}/position-events" (("accountID", id) ∷ []) (paging q) []
      empty

unfoldable pub activity_request : Option Text → ActivityCall → Request
unfolding typed raw get_json send_json get_field set_field
activity_request token (activity_list q) = get_json token (codes "/activity") (activity_entries q)

unfoldable pub transactions_request : Option Text → TransactionsCall → Request
unfolding typed raw get_json send_json get_field set_field
transactions_request token (transactions_create body) =
    typed token post "/transactions" [] []
      (("Idempotency-Key", as_text (get_field "idempotencyKey" body)) ∷ [])
      (json (json_object body))
transactions_request token (transactions_update id body) =
    typed token patch "/transactions/{id}" (("id", id) ∷ []) [] [] (json (json_object body))
transactions_request token (transactions_remove id) =
    typed token delete "/transactions/{id}" (("id", id) ∷ []) [] [] empty

unfoldable pub valuations_request : Option Text → ValuationsCall → Request
unfolding typed raw get_json send_json get_field set_field
valuations_request token (valuations_create body) =
    typed token post "/valuations" [] []
      (("Idempotency-Key", as_text (get_field "idempotencyKey" body)) ∷ [])
      (json (json_object body))
valuations_request token (valuations_remove id) =
    typed token delete "/valuations/{id}" (("id", id) ∷ []) [] [] empty

unfoldable pub transfers_request : Option Text → TransfersCall → Request
unfolding typed raw get_json send_json get_field set_field
transfers_request token (transfers_create body) =
    typed token post "/transfers" [] []
      (("Idempotency-Key", as_text (get_field "idempotencyKey" body)) ∷ [])
      (json (json_object body))

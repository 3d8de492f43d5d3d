-- ===== src/Http/Requests/Positions.antt =====
-- web/src/api/http/httpAdapter.ts: the requests of instruments, prices, trades, reconciliations, conversions and corporate actions.
use wealthboard.Base.{[], ◌∷◌, ◌++◌, Option, none, some, Text, codes}
use wealthboard.Http.Calls.{
  InstrumentsCall, instruments_list, instruments_get, instruments_holdings, instruments_create,
  instruments_update, instruments_set_archived, instruments_remove, PricesCall, prices_upsert,
  prices_remove, PositionEventsCall, position_events_get, position_events_create,
  position_events_update, position_events_remove, ReconciliationsCall, reconciliations_list,
  reconciliations_create, reconciliations_remove, ConversionsCall, conversions_preview,
  conversions_execute, CorporateActionsCall, corporate_actions_create, corporate_actions_remove,
}
use wealthboard.Http.Inputs.{kind_text, paging}
use wealthboard.Http.{empty, json, Request}
use wealthboard.Http.Transport.{typed, raw, get_json, send_json}
use wealthboard.Json.{
  json_bool, json_text, json_object, no_fields, field, get_field, set_field, as_text,
}
use wealthboard.Contract.{get, put, post, delete, patch}

unfoldable pub instruments_request : Option Text → InstrumentsCall → Request
unfolding typed raw get_json send_json get_field set_field
instruments_request token instruments_list = typed token get "/instruments" [] [] [] empty
instruments_request token (instruments_get id) =
    typed token get "/instruments/{id}" (("id", id) ∷ []) [] [] empty
instruments_request token (instruments_holdings id) =
    get_json token (codes "/instruments/" ++ id ++ codes "/holdings") []
instruments_request token (instruments_create body) =
    typed token post "/instruments" [] [] [] (json (json_object body))
instruments_request token (instruments_update id body) =
    typed token put "/instruments/{id}" (("id", id) ∷ []) [] [] (json (json_object body))
instruments_request token (instruments_set_archived id archived) =
    typed token patch "/instruments/{id}/archive" (("id", id) ∷ []) [] []
      (json (json_object (field "archived" (json_bool archived) no_fields)))
instruments_request token (instruments_remove id) =
    send_json token (codes "/instruments/" ++ id) delete empty none

unfoldable pub prices_request : Option Text → PricesCall → Request
unfolding typed raw get_json send_json get_field set_field
prices_request token (prices_upsert body key) =
    typed token put "/security-prices" [] [] (("Idempotency-Key", some key) ∷ [])
      (json (json_object body))
prices_request token (prices_remove id) =
    typed token delete "/security-prices/{id}" (("id", id) ∷ []) [] [] empty

unfoldable pub position_events_request : Option Text → PositionEventsCall → Request
unfolding typed raw get_json send_json get_field set_field
position_events_request token (position_events_get account id) =
    get_json token (codes "/accounts/" ++ (account ++ (codes "/position-events/" ++ id))) []
position_events_request token (position_events_update id body) =
    send_json token (codes "/position-events/" ++ id) put (json (json_object body)) none
position_events_request token (position_events_create body) =
    typed token post "/position-events" [] []
      (("Idempotency-Key", as_text (get_field "idempotencyKey" body)) ∷ [])
      (json (json_object body))
position_events_request token (position_events_remove id) =
    typed token delete "/position-events/{id}" (("id", id) ∷ []) [] [] empty

unfoldable pub reconciliations_request : Option Text → ReconciliationsCall → Request
unfolding typed raw get_json send_json get_field set_field
reconciliations_request token (reconciliations_list account q) =
    get_json token (codes "/accounts/" ++ account ++ codes "/position-reconciliations") (paging q)
reconciliations_request token (reconciliations_create body) =
    send_json token (codes "/position-reconciliations") post (json (json_object body)) none
reconciliations_request token (reconciliations_remove id) =
    send_json token (codes "/position-reconciliations/" ++ id) delete empty none

unfoldable pub conversions_request : Option Text → ConversionsCall → Request
unfolding typed raw get_json send_json get_field set_field
conversions_request token (conversions_preview body key) =
    send_json token (codes "/account-conversions/preview") post
      (json (json_object (set_field "idempotencyKey" (json_text key) body))) (some key)
conversions_request token (conversions_execute body key) =
    send_json token (codes "/account-conversions") post
      (json (json_object (set_field "idempotencyKey" (json_text key) body))) (some key)

unfoldable pub corporate_actions_request : Option Text → CorporateActionsCall → Request
unfolding typed raw get_json send_json get_field set_field
corporate_actions_request token (corporate_actions_create kind body key) =
    send_json token (codes "/corporate-actions/" ++ kind_text kind) post
      (json (json_object (set_field "idempotencyKey" (json_text key) body))) (some key)
corporate_actions_request token (corporate_actions_remove id) =
    send_json token (codes "/corporate-actions/" ++ id) delete empty none

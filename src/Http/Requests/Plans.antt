-- ===== src/Http/Requests/Plans.antt =====
-- web/src/api/http/httpAdapter.ts: the requests of goals, reports, settings, categories, institutions and exchange rates.
use wealthboard.Base.{[], ◌∷◌, Option, some, Text, codes}
use wealthboard.Http.Calls.{
  GoalsCall, goals_list, goals_get, goals_create, goals_update, goals_remove, goals_set_status,
  goals_scenarios, goals_milestones, goals_create_milestone, goals_remove_milestone, goals_alerts,
  goals_dismiss_alert, ReportsCall, reports_summary, reports_allocation, reports_flows,
  reports_income, reports_net_worth_stats, reports_account_comparison, reports_attention,
  SettingsCall, settings_get, settings_update, CategoriesCall, categories_list, categories_create,
  categories_update, categories_set_archived, categories_reorder, InstitutionsCall,
  institutions_list, institutions_create, institutions_update, institutions_set_archived,
  ExchangeRatesCall, exchange_rates_create, exchange_rates_remove,
}
use wealthboard.Http.Inputs.{range_text, direction_text}
use wealthboard.Http.{empty, json, Request}
use wealthboard.Http.Transport.{typed, raw, get_json, send_json}
use wealthboard.Json.{json_bool, json_text, json_object, no_fields, field, get_field, set_field}
use wealthboard.Contract.{get, put, post, delete, patch}

unfoldable pub goals_request : Option Text → GoalsCall → Request
unfolding typed raw get_json send_json get_field set_field
goals_request token goals_list = typed token get "/goals" [] [] [] empty
goals_request token (goals_get id) = typed token get "/goals/{id}" (("id", id) ∷ []) [] [] empty
goals_request token (goals_create body key) =
    typed token post "/goals" [] [] (("Idempotency-Key", some key) ∷ [])
      (json (json_object (set_field "idempotencyKey" (json_text key) body)))
goals_request token (goals_update id body) =
    typed token put "/goals/{id}" (("id", id) ∷ []) [] [] (json (json_object body))
goals_request token (goals_remove id) =
    typed token delete "/goals/{id}" (("id", id) ∷ []) [] [] empty
goals_request token (goals_set_status id status) =
    typed token patch "/goals/{id}/status" (("id", id) ∷ []) [] []
      (json (json_object (field "status" (json_text status) no_fields)))
goals_request token (goals_scenarios id monthly_minor bps) =
    typed token get "/goals/{id}/scenarios" (("id", id) ∷ [])
      (("monthlyContributionMinor", some monthly_minor) ∷ ("annualReturnBps", some bps) ∷ []) []
      empty
goals_request token (goals_milestones id) =
    typed token get "/goals/{id}/milestones" (("id", id) ∷ []) [] [] empty
goals_request token (goals_create_milestone id body) =
    typed token post "/goals/{id}/milestones" (("id", id) ∷ []) [] [] (json (json_object body))
goals_request token (goals_remove_milestone id milestone) =
    typed token delete "/goals/{id}/milestones/{milestoneId}"
      (("id", id) ∷ ("milestoneId", milestone) ∷ []) [] [] empty
goals_request token goals_alerts = typed token get "/goals/alerts" [] [] [] empty
goals_request token (goals_dismiss_alert id) =
    typed token post "/goals/{id}/alerts/dismiss" (("id", id) ∷ []) [] [] empty

unfoldable pub reports_request : Option Text → ReportsCall → Request
unfolding typed raw get_json send_json get_field set_field
reports_request token reports_summary = typed token get "/reports/summary" [] [] [] empty
reports_request token reports_allocation = typed token get "/reports/allocation" [] [] [] empty
reports_request token (reports_flows range) =
    get_json token (codes "/reports/flows") (("range", some (range_text range)) ∷ [])
reports_request token (reports_income range) =
    get_json token (codes "/reports/income") (("range", some (range_text range)) ∷ [])
reports_request token reports_net_worth_stats = get_json token (codes "/reports/net-worth-stats") []
reports_request token (reports_account_comparison range) =
    get_json token (codes "/reports/account-comparison") (("range", some (range_text range)) ∷ [])
reports_request token reports_attention = get_json token (codes "/attention") []

unfoldable pub settings_request : Option Text → SettingsCall → Request
unfolding typed raw get_json send_json get_field set_field
settings_request token settings_get = typed token get "/settings" [] [] [] empty
settings_request token (settings_update body) =
    typed token put "/settings" [] [] [] (json (json_object body))

unfoldable pub categories_request : Option Text → CategoriesCall → Request
unfolding typed raw get_json send_json get_field set_field
categories_request token categories_list = typed token get "/categories" [] [] [] empty
categories_request token (categories_create body) =
    typed token post "/categories" [] [] [] (json (json_object body))
categories_request token (categories_update id body) =
    typed token put "/categories/{id}" (("id", id) ∷ []) [] [] (json (json_object body))
categories_request token (categories_set_archived id archived) =
    typed token patch "/categories/{id}/archive" (("id", id) ∷ []) [] []
      (json (json_object (field "archived" (json_bool archived) no_fields)))
categories_request token (categories_reorder id direction) =
    typed token post "/categories/{id}/reorder" (("id", id) ∷ []) [] []
      (json (json_object (field "direction" (json_text (direction_text direction)) no_fields)))

unfoldable pub institutions_request : Option Text → InstitutionsCall → Request
unfolding typed raw get_json send_json get_field set_field
institutions_request token institutions_list = typed token get "/institutions" [] [] [] empty
institutions_request token (institutions_create body) =
    typed token post "/institutions" [] [] [] (json (json_object body))
institutions_request token (institutions_update id body) =
    typed token put "/institutions/{id}" (("id", id) ∷ []) [] [] (json (json_object body))
institutions_request token (institutions_set_archived id archived) =
    typed token patch "/institutions/{id}/archive" (("id", id) ∷ []) [] []
      (json (json_object (field "archived" (json_bool archived) no_fields)))

unfoldable pub exchange_rates_request : Option Text → ExchangeRatesCall → Request
unfolding typed raw get_json send_json get_field set_field
exchange_rates_request token (exchange_rates_create body key) =
    typed token post "/exchange-rates" [] [] (("Idempotency-Key", some key) ∷ [])
      (json (json_object body))
exchange_rates_request token (exchange_rates_remove id) =
    typed token delete "/exchange-rates/{id}" (("id", id) ∷ []) [] [] empty

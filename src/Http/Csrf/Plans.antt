-- ===== src/Http/Csrf/Plans.antt =====
-- web/src/api/http/httpAdapter.ts: the CSRF token on the requests of the estate, access, goals, reports and the catalogue.
use wealthboard.Base.{ℕ, ◌∷◌, some, Text, same, refl, arith}
use wealthboard.Http.Requests.Wills.{
  estate_request, api_keys_request, connected_apps_request, oauth_request_of,
}
use wealthboard.Http.Requests.Plans.{
  goals_request, reports_request, settings_request, categories_request, institutions_request,
  exchange_rates_request,
}
use wealthboard.Http.Calls.{
  EstateCall, estate_get, estate_update_plan, estate_create_beneficiary, estate_update_beneficiary,
  estate_set_beneficiary_archived, estate_upsert_directive, estate_upsert_allocation,
  estate_remove_allocation, estate_upsert_residuary, estate_remove_residuary,
  estate_create_snapshot, estate_get_snapshot, estate_remove_snapshot, ApiKeysCall, api_keys_list,
  api_keys_create, api_keys_revoke, api_keys_revoke_all, ConnectedAppsCall, connected_apps_list,
  connected_apps_revoke, connected_apps_clear_calls, OauthCall, oauth_request, oauth_approve,
  oauth_deny, GoalsCall, goals_list, goals_get, goals_create, goals_update, goals_remove,
  goals_set_status, goals_scenarios, goals_milestones, goals_create_milestone,
  goals_remove_milestone, goals_alerts, goals_dismiss_alert, ReportsCall, reports_summary,
  reports_allocation, reports_flows, reports_income, reports_net_worth_stats,
  reports_account_comparison, reports_attention, SettingsCall, settings_get, settings_update,
  CategoriesCall, categories_list, categories_create, categories_update, categories_set_archived,
  categories_reorder, InstitutionsCall, institutions_list, institutions_create, institutions_update,
  institutions_set_archived, ExchangeRatesCall, exchange_rates_create, exchange_rates_remove,
}
use wealthboard.Http.Csrf.{header_of, Carries}

module _ (first : ℕ) (tail : Text) where
  pub estate_request-Carries :
      (x : EstateCall) → Carries (first ∷ tail) (estate_request (some (first ∷ tail)) x)
  unfolding estate_request header_of same
  estate_request-Carries estate_get = λ m. absurd (ground arith)
  estate_request-Carries (estate_update_plan b) = λ m. refl
  estate_request-Carries (estate_create_beneficiary b) = λ m. refl
  estate_request-Carries (estate_update_beneficiary i b) = λ m. refl
  estate_request-Carries (estate_set_beneficiary_archived i a) = λ m. refl
  estate_request-Carries (estate_upsert_directive i b) = λ m. refl
  estate_request-Carries (estate_upsert_allocation i b) = λ m. refl
  estate_request-Carries (estate_remove_allocation i) = λ m. refl
  estate_request-Carries (estate_upsert_residuary b) = λ m. refl
  estate_request-Carries (estate_remove_residuary i) = λ m. refl
  estate_request-Carries estate_create_snapshot = λ m. refl
  estate_request-Carries (estate_get_snapshot i) = λ m. absurd (ground arith)
  estate_request-Carries (estate_remove_snapshot i) = λ m. refl

  pub api_keys_request-Carries :
      (x : ApiKeysCall) → Carries (first ∷ tail) (api_keys_request (some (first ∷ tail)) x)
  unfolding api_keys_request header_of same
  api_keys_request-Carries api_keys_list = λ m. absurd (ground arith)
  api_keys_request-Carries (api_keys_create b) = λ m. refl
  api_keys_request-Carries (api_keys_revoke i) = λ m. refl
  api_keys_request-Carries api_keys_revoke_all = λ m. refl

  pub connected_apps_request-Carries :
      (x : ConnectedAppsCall)
      → Carries (first ∷ tail) (connected_apps_request (some (first ∷ tail)) x)
  unfolding connected_apps_request header_of same
  connected_apps_request-Carries connected_apps_list = λ m. absurd (ground arith)
  connected_apps_request-Carries (connected_apps_revoke i) = λ m. refl
  connected_apps_request-Carries (connected_apps_clear_calls i) = λ m. refl

  pub oauth_request_of-Carries :
      (x : OauthCall) → Carries (first ∷ tail) (oauth_request_of (some (first ∷ tail)) x)
  unfolding oauth_request_of header_of same
  oauth_request_of-Carries (oauth_request i) = λ m. absurd (ground arith)
  oauth_request_of-Carries (oauth_approve i l w) = λ m. refl
  oauth_request_of-Carries (oauth_deny i) = λ m. refl

  pub goals_request-Carries :
      (x : GoalsCall) → Carries (first ∷ tail) (goals_request (some (first ∷ tail)) x)
  unfolding goals_request header_of same
  goals_request-Carries goals_list = λ m. absurd (ground arith)
  goals_request-Carries (goals_get i) = λ m. absurd (ground arith)
  goals_request-Carries (goals_create b k) = λ m. refl
  goals_request-Carries (goals_update i b) = λ m. refl
  goals_request-Carries (goals_remove i) = λ m. refl
  goals_request-Carries (goals_set_status i s) = λ m. refl
  goals_request-Carries (goals_scenarios i m r) = λ m. absurd (ground arith)
  goals_request-Carries (goals_milestones i) = λ m. absurd (ground arith)
  goals_request-Carries (goals_create_milestone i b) = λ m. refl
  goals_request-Carries (goals_remove_milestone i m) = λ m. refl
  goals_request-Carries goals_alerts = λ m. absurd (ground arith)
  goals_request-Carries (goals_dismiss_alert i) = λ m. refl

  pub reports_request-Carries :
      (x : ReportsCall) → Carries (first ∷ tail) (reports_request (some (first ∷ tail)) x)
  unfolding reports_request header_of same
  reports_request-Carries reports_summary = λ m. absurd (ground arith)
  reports_request-Carries reports_allocation = λ m. absurd (ground arith)
  reports_request-Carries (reports_flows r) = λ m. absurd (ground arith)
  reports_request-Carries (reports_income r) = λ m. absurd (ground arith)
  reports_request-Carries reports_net_worth_stats = λ m. absurd (ground arith)
  reports_request-Carries (reports_account_comparison r) = λ m. absurd (ground arith)
  reports_request-Carries reports_attention = λ m. absurd (ground arith)

  pub settings_request-Carries :
      (x : SettingsCall) → Carries (first ∷ tail) (settings_request (some (first ∷ tail)) x)
  unfolding settings_request header_of same
  settings_request-Carries settings_get = λ m. absurd (ground arith)
  settings_request-Carries (settings_update b) = λ m. refl

  pub categories_request-Carries :
      (x : CategoriesCall) → Carries (first ∷ tail) (categories_request (some (first ∷ tail)) x)
  unfolding categories_request header_of same
  categories_request-Carries categories_list = λ m. absurd (ground arith)
  categories_request-Carries (categories_create b) = λ m. refl
  categories_request-Carries (categories_update i b) = λ m. refl
  categories_request-Carries (categories_set_archived i a) = λ m. refl
  categories_request-Carries (categories_reorder i d) = λ m. refl

  pub institutions_request-Carries :
      (x : InstitutionsCall) → Carries (first ∷ tail) (institutions_request (some (first ∷ tail)) x)
  unfolding institutions_request header_of same
  institutions_request-Carries institutions_list = λ m. absurd (ground arith)
  institutions_request-Carries (institutions_create b) = λ m. refl
  institutions_request-Carries (institutions_update i b) = λ m. refl
  institutions_request-Carries (institutions_set_archived i a) = λ m. refl

  pub exchange_rates_request-Carries :
      (x : ExchangeRatesCall)
      → Carries (first ∷ tail) (exchange_rates_request (some (first ∷ tail)) x)
  unfolding exchange_rates_request header_of same
  exchange_rates_request-Carries (exchange_rates_create b k) = λ m. refl
  exchange_rates_request-Carries (exchange_rates_remove i) = λ m. refl

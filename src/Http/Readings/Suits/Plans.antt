-- ===== src/Http/Readings/Suits/Plans.antt =====
-- web/src/api/http/httpAdapter.ts: how the calls on the estate, access, goals, reports and the catalogue
-- read, against the answers of their operations.
use wealthboard.Base.{true, ◌≡◌, refl, same}
use wealthboard.Http.Readings.Each.{
  estate_reading, api_keys_reading, connected_apps_reading, oauth_reading, goals_reading,
  reports_reading, settings_reading, categories_reading, institutions_reading,
  exchange_rates_reading,
}
use wealthboard.Http.Routes.Expected.Wills.{
  estate_operation, api_keys_operation, connected_apps_operation, oauth_operation,
}
use wealthboard.Http.Routes.Expected.Plans.{
  goals_operation, reports_operation, settings_operation, categories_operation,
  institutions_operation, exchange_rates_operation,
}
use wealthboard.Http.Calls.{
  EstateCall, estate_get, estate_update_plan, estate_create_beneficiary, estate_update_beneficiary,
  estate_set_beneficiary_archived, estate_upsert_directive, estate_upsert_allocation,
  estate_remove_allocation, estate_upsert_residuary, estate_remove_residuary,
  estate_create_snapshot, estate_get_snapshot, estate_remove_snapshot, ApiKeysCall, api_keys_list,
  api_keys_create, api_keys_revoke, api_keys_revoke_all, ConnectedAppsCall, connected_apps_list,
  connected_apps_revoke, connected_apps_clear_calls, OauthCall, oauth_request, oauth_approve,
  oauth_deny, GoalsCall, goals_list, goals_get, goals_create, goals_update, goals_remove,
  goals_set_status, goals_scenarios, goals_milestones, goals_create_milestone,
  goals_remove_milestone, goals_alerts, goals_dismiss_alert, ReportsCall, reports_summary,
  reports_allocation, reports_flows, reports_income, reports_net_worth_stats,
  reports_account_comparison, reports_attention, SettingsCall, settings_get, settings_update,
  CategoriesCall, categories_list, categories_create, categories_update, categories_set_archived,
  categories_reorder, InstitutionsCall, institutions_list, institutions_create, institutions_update,
  institutions_set_archived, ExchangeRatesCall, exchange_rates_create, exchange_rates_remove,
}
use wealthboard.Http.Readings.Answers.{suits_all}

pub suits_all-estate_reading :
    (x : EstateCall) → suits_all (estate_reading x) (estate_operation x).answers ≡ true
unfolding suits_all same
suits_all-estate_reading estate_get = refl
suits_all-estate_reading (estate_update_plan b) = refl
suits_all-estate_reading (estate_create_beneficiary b) = refl
suits_all-estate_reading (estate_update_beneficiary i b) = refl
suits_all-estate_reading (estate_set_beneficiary_archived i a) = refl
suits_all-estate_reading (estate_upsert_directive i b) = refl
suits_all-estate_reading (estate_upsert_allocation i b) = refl
suits_all-estate_reading (estate_remove_allocation i) = refl
suits_all-estate_reading (estate_upsert_residuary b) = refl
suits_all-estate_reading (estate_remove_residuary i) = refl
suits_all-estate_reading estate_create_snapshot = refl
suits_all-estate_reading (estate_get_snapshot i) = refl
suits_all-estate_reading (estate_remove_snapshot i) = refl

pub suits_all-api_keys_reading :
    (x : ApiKeysCall) → suits_all (api_keys_reading x) (api_keys_operation x).answers ≡ true
unfolding suits_all same
suits_all-api_keys_reading api_keys_list = refl
suits_all-api_keys_reading (api_keys_create b) = refl
suits_all-api_keys_reading (api_keys_revoke i) = refl
suits_all-api_keys_reading api_keys_revoke_all = refl

pub suits_all-connected_apps_reading :
    (x : ConnectedAppsCall)
    → suits_all (connected_apps_reading x) (connected_apps_operation x).answers ≡ true
unfolding suits_all same
suits_all-connected_apps_reading connected_apps_list = refl
suits_all-connected_apps_reading (connected_apps_revoke i) = refl
suits_all-connected_apps_reading (connected_apps_clear_calls i) = refl

pub suits_all-oauth_reading :
    (x : OauthCall) → suits_all (oauth_reading x) (oauth_operation x).answers ≡ true
unfolding suits_all same
suits_all-oauth_reading (oauth_request i) = refl
suits_all-oauth_reading (oauth_approve i l w) = refl
suits_all-oauth_reading (oauth_deny i) = refl

pub suits_all-goals_reading :
    (x : GoalsCall) → suits_all (goals_reading x) (goals_operation x).answers ≡ true
unfolding suits_all same
suits_all-goals_reading goals_list = refl
suits_all-goals_reading (goals_get i) = refl
suits_all-goals_reading (goals_create b k) = refl
suits_all-goals_reading (goals_update i b) = refl
suits_all-goals_reading (goals_remove i) = refl
suits_all-goals_reading (goals_set_status i s) = refl
suits_all-goals_reading (goals_scenarios i m r) = refl
suits_all-goals_reading (goals_milestones i) = refl
suits_all-goals_reading (goals_create_milestone i b) = refl
suits_all-goals_reading (goals_remove_milestone i m) = refl
suits_all-goals_reading goals_alerts = refl
suits_all-goals_reading (goals_dismiss_alert i) = refl

pub suits_all-reports_reading :
    (x : ReportsCall) → suits_all (reports_reading x) (reports_operation x).answers ≡ true
unfolding suits_all same
suits_all-reports_reading reports_summary = refl
suits_all-reports_reading reports_allocation = refl
suits_all-reports_reading (reports_flows r) = refl
suits_all-reports_reading (reports_income r) = refl
suits_all-reports_reading reports_net_worth_stats = refl
suits_all-reports_reading (reports_account_comparison r) = refl
suits_all-reports_reading reports_attention = refl

pub suits_all-settings_reading :
    (x : SettingsCall) → suits_all (settings_reading x) (settings_operation x).answers ≡ true
unfolding suits_all same
suits_all-settings_reading settings_get = refl
suits_all-settings_reading (settings_update b) = refl

pub suits_all-categories_reading :
    (x : CategoriesCall) → suits_all (categories_reading x) (categories_operation x).answers ≡ true
unfolding suits_all same
suits_all-categories_reading categories_list = refl
suits_all-categories_reading (categories_create b) = refl
suits_all-categories_reading (categories_update i b) = refl
suits_all-categories_reading (categories_set_archived i a) = refl
suits_all-categories_reading (categories_reorder i d) = refl

pub suits_all-institutions_reading :
    (x : InstitutionsCall)
    → suits_all (institutions_reading x) (institutions_operation x).answers ≡ true
unfolding suits_all same
suits_all-institutions_reading institutions_list = refl
suits_all-institutions_reading (institutions_create b) = refl
suits_all-institutions_reading (institutions_update i b) = refl
suits_all-institutions_reading (institutions_set_archived i a) = refl

pub suits_all-exchange_rates_reading :
    (x : ExchangeRatesCall)
    → suits_all (exchange_rates_reading x) (exchange_rates_operation x).answers ≡ true
unfolding suits_all same
suits_all-exchange_rates_reading (exchange_rates_create b k) = refl
suits_all-exchange_rates_reading (exchange_rates_remove i) = refl

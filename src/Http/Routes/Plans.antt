-- ===== src/Http/Routes/Plans.antt =====
-- web/src/api/http/httpAdapter.ts: the requests of goals, reports, settings, the catalogue and rates
-- against the contract.
use wealthboard.Base.{ℕ, ◌∷◌, some, Text, refl, []}
use wealthboard.Http.Requests.Plans.{goals_request}
use wealthboard.Http.Requests.Plans.{reports_request}
use wealthboard.Http.Requests.Plans.{settings_request}
use wealthboard.Http.Requests.Plans.{categories_request}
use wealthboard.Http.Requests.Plans.{institutions_request}
use wealthboard.Http.Requests.Plans.{exchange_rates_request}
use wealthboard.Http.Routes.Expected.Plans.{
  goals_operation, reports_operation, settings_operation, categories_operation,
  institutions_operation, exchange_rates_operation,
}
use wealthboard.Http.Calls.{
  GoalsCall, goals_list, goals_get, goals_create, goals_update, goals_remove, goals_set_status,
  goals_scenarios, goals_milestones, goals_create_milestone, goals_remove_milestone, goals_alerts,
  goals_dismiss_alert, ReportsCall, reports_summary, reports_allocation, reports_flows,
  reports_income, reports_net_worth_stats, reports_account_comparison, reports_attention,
  SettingsCall, settings_get, settings_update, CategoriesCall, categories_list, categories_create,
  categories_update, categories_set_archived, categories_reorder, InstitutionsCall,
  institutions_list, institutions_create, institutions_update, institutions_set_archived,
  ExchangeRatesCall, exchange_rates_create, exchange_rates_remove,
}
use wealthboard.Http.Inputs.{range_text}
use wealthboard.Http.Routes.{split, operations_for, fulfils, Conforms}
use wealthboard.Http.Routes.Segments.{are_declared-non_empty}

-- The adapter holds a token, which is not empty.
module _ (first : ℕ) (tail : Text) where
  pub goals_request-Conforms :
      (x : GoalsCall) → Conforms (goals_request (some (first ∷ tail)) x) (goals_operation x)
  unfolding goals_request operations_for fulfils split
  goals_request-Conforms goals_list = (refl, refl)
  goals_request-Conforms (goals_get i) = (refl, refl)
  goals_request-Conforms (goals_create b k) = (refl, refl)
  goals_request-Conforms (goals_update i b) = (refl, refl)
  goals_request-Conforms (goals_remove i) = (refl, refl)
  goals_request-Conforms (goals_set_status i s) = (refl, refl)
  goals_request-Conforms (goals_scenarios i m r) = (refl, refl)
  goals_request-Conforms (goals_milestones i) = (refl, refl)
  goals_request-Conforms (goals_create_milestone i b) = (refl, refl)
  goals_request-Conforms (goals_remove_milestone i m) = (refl, refl)
  goals_request-Conforms goals_alerts = (refl, refl)
  goals_request-Conforms (goals_dismiss_alert i) = (refl, refl)

  pub reports_request-Conforms :
      (x : ReportsCall) → Conforms (reports_request (some (first ∷ tail)) x) (reports_operation x)
  unfolding reports_request operations_for fulfils split
  reports_request-Conforms reports_summary = (refl, refl)
  reports_request-Conforms reports_allocation = (refl, refl)
  reports_request-Conforms (reports_flows r) =
      (refl, are_declared-non_empty (("range", some (range_text r)) ∷ []) _ refl)
  reports_request-Conforms (reports_income r) =
      (refl, are_declared-non_empty (("range", some (range_text r)) ∷ []) _ refl)
  reports_request-Conforms reports_net_worth_stats = (refl, refl)
  reports_request-Conforms (reports_account_comparison r) =
      (refl, are_declared-non_empty (("range", some (range_text r)) ∷ []) _ refl)
  reports_request-Conforms reports_attention = (refl, refl)

  pub settings_request-Conforms :
      (x : SettingsCall)
      → Conforms (settings_request (some (first ∷ tail)) x) (settings_operation x)
  unfolding settings_request operations_for fulfils split
  settings_request-Conforms settings_get = (refl, refl)
  settings_request-Conforms (settings_update b) = (refl, refl)

  pub categories_request-Conforms :
      (x : CategoriesCall)
      → Conforms (categories_request (some (first ∷ tail)) x) (categories_operation x)
  unfolding categories_request operations_for fulfils split
  categories_request-Conforms categories_list = (refl, refl)
  categories_request-Conforms (categories_create b) = (refl, refl)
  categories_request-Conforms (categories_update i b) = (refl, refl)
  categories_request-Conforms (categories_set_archived i a) = (refl, refl)
  categories_request-Conforms (categories_reorder i d) = (refl, refl)

  pub institutions_request-Conforms :
      (x : InstitutionsCall)
      → Conforms (institutions_request (some (first ∷ tail)) x) (institutions_operation x)
  unfolding institutions_request operations_for fulfils split
  institutions_request-Conforms institutions_list = (refl, refl)
  institutions_request-Conforms (institutions_create b) = (refl, refl)
  institutions_request-Conforms (institutions_update i b) = (refl, refl)
  institutions_request-Conforms (institutions_set_archived i a) = (refl, refl)

  pub exchange_rates_request-Conforms :
      (x : ExchangeRatesCall)
      → Conforms (exchange_rates_request (some (first ∷ tail)) x) (exchange_rates_operation x)
  unfolding exchange_rates_request operations_for fulfils split
  exchange_rates_request-Conforms (exchange_rates_create b k) = (refl, refl)
  exchange_rates_request-Conforms (exchange_rates_remove i) = (refl, refl)

-- ===== src/Http/Routes/Expected/Plans.antt =====
-- The operations of web/src/api/schema.ts that the calls of web/src/api/datasource.ts are for:
-- those on goals, reports, settings, the catalogue and rates.
use wealthboard.Contract.{Operation}
use wealthboard.Http.Calls.{
  GoalsCall, goals_list, goals_get, goals_create, goals_update, goals_remove, goals_set_status,
  goals_scenarios, goals_milestones, goals_create_milestone, goals_remove_milestone, goals_alerts,
  goals_dismiss_alert, ReportsCall, reports_summary, reports_allocation, reports_flows,
  reports_income, reports_net_worth_stats, reports_account_comparison, reports_attention,
  SettingsCall, settings_get, settings_update, CategoriesCall, categories_list, categories_create,
  categories_update, categories_set_archived, categories_reorder, InstitutionsCall,
  institutions_list, institutions_create, institutions_update, institutions_set_archived,
  ExchangeRatesCall, exchange_rates_create, exchange_rates_remove,
}
use wealthboard.Contract.Operations.Catalogue.{
  list_categories, create_category, update_category, set_category_archived, reorder_category,
  list_institutions, create_institution, update_institution, set_institution_archived,
  create_exchange_rate, delete_exchange_rate,
}
use wealthboard.Contract.Operations.Instruments.{get_settings, update_settings}
use wealthboard.Contract.Operations.Plans.{
  list_goals, create_goal, get_goal, update_goal, delete_goal, calculate_goal_scenarios,
  set_goal_status, list_goal_milestones, create_goal_milestone, delete_goal_milestone,
  dismiss_goal_alert, list_goal_alerts,
}
use wealthboard.Contract.Operations.Reports.{
  get_report_summary, get_report_allocation, get_attention, get_flows_report, get_income_report,
  get_net_worth_stats, get_account_comparison,
}

abbrev pub goals_operation : GoalsCall → Operation
goals_operation goals_list = list_goals
goals_operation (goals_get _) = get_goal
goals_operation (goals_create _ _) = create_goal
goals_operation (goals_update _ _) = update_goal
goals_operation (goals_remove _) = delete_goal
goals_operation (goals_set_status _ _) = set_goal_status
goals_operation (goals_scenarios _ _ _) = calculate_goal_scenarios
goals_operation (goals_milestones _) = list_goal_milestones
goals_operation (goals_create_milestone _ _) = create_goal_milestone
goals_operation (goals_remove_milestone _ _) = delete_goal_milestone
goals_operation goals_alerts = list_goal_alerts
goals_operation (goals_dismiss_alert _) = dismiss_goal_alert

abbrev pub reports_operation : ReportsCall → Operation
reports_operation reports_summary = get_report_summary
reports_operation reports_allocation = get_report_allocation
reports_operation (reports_flows _) = get_flows_report
reports_operation (reports_income _) = get_income_report
reports_operation reports_net_worth_stats = get_net_worth_stats
reports_operation (reports_account_comparison _) = get_account_comparison
reports_operation reports_attention = get_attention

abbrev pub settings_operation : SettingsCall → Operation
settings_operation settings_get = get_settings
settings_operation (settings_update _) = update_settings

abbrev pub categories_operation : CategoriesCall → Operation
categories_operation categories_list = list_categories
categories_operation (categories_create _) = create_category
categories_operation (categories_update _ _) = update_category
categories_operation (categories_set_archived _ _) = set_category_archived
categories_operation (categories_reorder _ _) = reorder_category

abbrev pub institutions_operation : InstitutionsCall → Operation
institutions_operation institutions_list = list_institutions
institutions_operation (institutions_create _) = create_institution
institutions_operation (institutions_update _ _) = update_institution
institutions_operation (institutions_set_archived _ _) = set_institution_archived

abbrev pub exchange_rates_operation : ExchangeRatesCall → Operation
exchange_rates_operation (exchange_rates_create _ _) = create_exchange_rate
exchange_rates_operation (exchange_rates_remove _) = delete_exchange_rate

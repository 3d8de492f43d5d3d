-- ===== src/Http/Calls.antt =====
-- web/src/api/datasource.ts: the calls of a data source, one type for each of its resources. The
-- answers that they promise are what `Readings` reads.
use wealthboard.Base.{Bool, Option, Text}
use wealthboard.Json.{Fields}
use wealthboard.Http.Inputs.{
  PageQuery, ImportFile, DashboardRange, ArchivedFilter, CorporateActionKind, Direction,
  ActivityQuery,
}

pub data AuthCall : Type 0 where
  auth_config auth_session : AuthCall
  auth_login auth_signup : Fields → AuthCall
  auth_logout : AuthCall
  auth_change_password : Fields → AuthCall
  auth_link_oidc auth_unlink_oidc : Text → AuthCall
  auth_reauthenticate_oidc : Option Text → AuthCall
  auth_enable_local_credential : Fields → AuthCall
  auth_remove_local_credential : AuthCall

pub data DashboardCall : Type 0 where
  dashboard_get : DashboardRange → DashboardCall

pub data AccountsCall : Type 0 where
  accounts_list : Option ArchivedFilter → AccountsCall
  accounts_summaries : AccountsCall
  accounts_get : Text → AccountsCall
  accounts_create : Fields → AccountsCall
  accounts_update : Text → Fields → AccountsCall
  accounts_set_archived : Text → Bool → AccountsCall
  accounts_remove : Text → Text → AccountsCall
  accounts_analytics accounts_extras : Text → AccountsCall
  accounts_activity accounts_transactions accounts_valuations accounts_position_events :
      Text → Option PageQuery → AccountsCall

pub data ActivityCall : Type 0 where
  activity_list : ActivityQuery → ActivityCall

pub data TransactionsCall : Type 0 where
  transactions_create : Fields → TransactionsCall
  transactions_update : Text → Fields → TransactionsCall
  transactions_remove : Text → TransactionsCall

pub data ValuationsCall : Type 0 where
  valuations_create : Fields → ValuationsCall
  valuations_remove : Text → ValuationsCall

pub data TransfersCall : Type 0 where
  transfers_create : Fields → TransfersCall

pub data InstrumentsCall : Type 0 where
  instruments_list : InstrumentsCall
  instruments_get instruments_holdings : Text → InstrumentsCall
  instruments_create : Fields → InstrumentsCall
  instruments_update : Text → Fields → InstrumentsCall
  instruments_set_archived : Text → Bool → InstrumentsCall
  instruments_remove : Text → InstrumentsCall

pub data PricesCall : Type 0 where
  prices_upsert : Fields → Text → PricesCall
  prices_remove : Text → PricesCall

pub data PositionEventsCall : Type 0 where
  position_events_get : Text → Text → PositionEventsCall
  position_events_create : Fields → PositionEventsCall
  position_events_update : Text → Fields → PositionEventsCall
  position_events_remove : Text → PositionEventsCall

pub data ReconciliationsCall : Type 0 where
  reconciliations_list : Text → Option PageQuery → ReconciliationsCall
  reconciliations_create : Fields → ReconciliationsCall
  reconciliations_remove : Text → ReconciliationsCall

pub data ConversionsCall : Type 0 where
  conversions_preview conversions_execute : Fields → Text → ConversionsCall

pub data CorporateActionsCall : Type 0 where
  corporate_actions_create : CorporateActionKind → Fields → Text → CorporateActionsCall
  corporate_actions_remove : Text → CorporateActionsCall

pub data EstateCall : Type 0 where
  estate_get : EstateCall
  estate_update_plan estate_create_beneficiary : Fields → EstateCall
  estate_update_beneficiary : Text → Fields → EstateCall
  estate_set_beneficiary_archived : Text → Bool → EstateCall
  estate_upsert_directive estate_upsert_allocation : Text → Fields → EstateCall
  estate_remove_allocation : Text → EstateCall
  estate_upsert_residuary : Fields → EstateCall
  estate_remove_residuary : Text → EstateCall
  estate_create_snapshot : EstateCall
  estate_get_snapshot estate_remove_snapshot : Text → EstateCall

pub data ApiKeysCall : Type 0 where
  api_keys_list : ApiKeysCall
  api_keys_create : Fields → ApiKeysCall
  api_keys_revoke : Text → ApiKeysCall
  api_keys_revoke_all : ApiKeysCall

pub data ConnectedAppsCall : Type 0 where
  connected_apps_list : ConnectedAppsCall
  connected_apps_revoke connected_apps_clear_calls : Text → ConnectedAppsCall

pub data OauthCall : Type 0 where
  oauth_request : Text → OauthCall
  oauth_approve : Text → Text → Bool → OauthCall
  oauth_deny : Text → OauthCall

pub data GoalsCall : Type 0 where
  goals_list : GoalsCall
  goals_get : Text → GoalsCall
  goals_create : Fields → Text → GoalsCall
  goals_update : Text → Fields → GoalsCall
  goals_remove : Text → GoalsCall
  goals_set_status : Text → Text → GoalsCall
  -- The return as the query writes it.
  goals_scenarios : Text → Text → Text → GoalsCall
  goals_milestones : Text → GoalsCall
  goals_create_milestone : Text → Fields → GoalsCall
  goals_remove_milestone : Text → Text → GoalsCall
  goals_alerts : GoalsCall
  goals_dismiss_alert : Text → GoalsCall

pub data ReportsCall : Type 0 where
  reports_summary reports_allocation : ReportsCall
  reports_flows reports_income : DashboardRange → ReportsCall
  reports_net_worth_stats : ReportsCall
  reports_account_comparison : DashboardRange → ReportsCall
  reports_attention : ReportsCall

pub data SettingsCall : Type 0 where
  settings_get : SettingsCall
  settings_update : Fields → SettingsCall

pub data CategoriesCall : Type 0 where
  categories_list : CategoriesCall
  categories_create : Fields → CategoriesCall
  categories_update : Text → Fields → CategoriesCall
  categories_set_archived : Text → Bool → CategoriesCall
  categories_reorder : Text → Direction → CategoriesCall

pub data InstitutionsCall : Type 0 where
  institutions_list : InstitutionsCall
  institutions_create : Fields → InstitutionsCall
  institutions_update : Text → Fields → InstitutionsCall
  institutions_set_archived : Text → Bool → InstitutionsCall

pub data ExchangeRatesCall : Type 0 where
  exchange_rates_create : Fields → Text → ExchangeRatesCall
  exchange_rates_remove : Text → ExchangeRatesCall

pub data ImportsCall : Type 0 where
  imports_preview_account_history : Text → ImportFile → ImportsCall
  imports_commit_account_history : Text → ImportFile → Text → ImportsCall
  imports_preview_investment_history : Text → ImportFile → ImportsCall
  imports_commit_investment_history : Text → ImportFile → Text → ImportsCall

pub data ExportsCall : Type 0 where
  exports_user_archive exports_transactions_csv exports_accounts_csv : ExportsCall
  exports_restore : Fields → ExportsCall
  exports_restore_file : ExportsCall

pub data Call : Type 0 where
  auth : AuthCall → Call
  dashboard : DashboardCall → Call
  accounts : AccountsCall → Call
  activity : ActivityCall → Call
  transactions : TransactionsCall → Call
  valuations : ValuationsCall → Call
  transfers : TransfersCall → Call
  instruments : InstrumentsCall → Call
  prices : PricesCall → Call
  position_events : PositionEventsCall → Call
  reconciliations : ReconciliationsCall → Call
  conversions : ConversionsCall → Call
  corporate_actions : CorporateActionsCall → Call
  estate : EstateCall → Call
  api_keys : ApiKeysCall → Call
  connected_apps : ConnectedAppsCall → Call
  oauth : OauthCall → Call
  goals : GoalsCall → Call
  reports : ReportsCall → Call
  settings : SettingsCall → Call
  categories : CategoriesCall → Call
  institutions : InstitutionsCall → Call
  exchange_rates : ExchangeRatesCall → Call
  imports : ImportsCall → Call
  exports : ExportsCall → Call

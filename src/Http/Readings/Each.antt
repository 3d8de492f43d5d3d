-- ===== src/Http/Readings/Each.antt =====
-- web/src/api/http/httpAdapter.ts: how each call reads the reply to its request.
use wealthboard.Http.Calls.{
  AuthCall, auth_config, auth_session, auth_login, auth_signup, auth_logout, auth_change_password,
  auth_link_oidc, auth_unlink_oidc, auth_reauthenticate_oidc, auth_enable_local_credential,
  auth_remove_local_credential, DashboardCall, AccountsCall, accounts_list, accounts_summaries,
  accounts_update, accounts_set_archived, accounts_remove, accounts_extras, ActivityCall,
  TransactionsCall, transactions_create, ValuationsCall, valuations_create, TransfersCall,
  InstrumentsCall, instruments_list, instruments_holdings, instruments_update,
  instruments_set_archived, instruments_remove, PricesCall, prices_upsert, PositionEventsCall,
  position_events_get, position_events_create, position_events_update, position_events_remove,
  ReconciliationsCall, reconciliations_list, ConversionsCall, CorporateActionsCall, EstateCall,
  estate_get, estate_get_snapshot, ApiKeysCall, api_keys_list, ConnectedAppsCall,
  connected_apps_list, OauthCall, oauth_request, GoalsCall, goals_update, goals_remove,
  goals_set_status, goals_remove_milestone, goals_dismiss_alert, ReportsCall, reports_summary,
  reports_allocation, SettingsCall, settings_get, CategoriesCall, categories_list,
  categories_create, InstitutionsCall, institutions_list, institutions_create, ExchangeRatesCall,
  exchange_rates_create, ImportsCall, ExportsCall, exports_user_archive, exports_transactions_csv,
  exports_accounts_csv, exports_restore, exports_restore_file, Call, auth, dashboard, accounts,
  activity, transactions, valuations, transfers, instruments, prices, position_events,
  reconciliations, conversions, corporate_actions, estate, api_keys, connected_apps, oauth, goals,
  reports, settings, categories, institutions, exchange_rates, imports, exports,
}
use wealthboard.Http.Readings.{
  Reading, whole, ignored, json_body, sent, as_content, member_of_data, member_of_json,
  starts_session, changes_session, sends_session, ends_session, finds_session, follows_redirect,
}

abbrev pub auth_reading : AuthCall → Reading
auth_reading auth_config = whole
auth_reading auth_session = finds_session
auth_reading (auth_login _) = starts_session
auth_reading (auth_signup _) = starts_session
auth_reading auth_logout = ends_session
auth_reading (auth_change_password _) = changes_session
auth_reading (auth_link_oidc _) = follows_redirect
auth_reading (auth_unlink_oidc _) = sends_session
auth_reading (auth_reauthenticate_oidc _) = follows_redirect
auth_reading (auth_enable_local_credential _) = sends_session
auth_reading auth_remove_local_credential = sends_session

abbrev pub dashboard_reading : DashboardCall → Reading
dashboard_reading _ = whole

abbrev pub accounts_reading : AccountsCall → Reading
accounts_reading (accounts_list _) = member_of_data "items"
accounts_reading accounts_summaries = json_body
accounts_reading (accounts_update _ _) = ignored
accounts_reading (accounts_set_archived _ _) = ignored
accounts_reading (accounts_remove _ _) = ignored
accounts_reading (accounts_extras _) = json_body
accounts_reading _ = whole

abbrev pub activity_reading : ActivityCall → Reading
activity_reading _ = json_body

abbrev pub transactions_reading : TransactionsCall → Reading
transactions_reading (transactions_create _) = whole
transactions_reading _ = ignored

abbrev pub valuations_reading : ValuationsCall → Reading
valuations_reading (valuations_create _) = whole
valuations_reading _ = ignored

abbrev pub transfers_reading : TransfersCall → Reading
transfers_reading _ = whole

abbrev pub instruments_reading : InstrumentsCall → Reading
instruments_reading instruments_list = member_of_data "instruments"
instruments_reading (instruments_holdings _) = json_body
instruments_reading (instruments_update _ _) = ignored
instruments_reading (instruments_set_archived _ _) = ignored
instruments_reading (instruments_remove _) = sent
instruments_reading _ = whole

abbrev pub prices_reading : PricesCall → Reading
prices_reading (prices_upsert _ _) = whole
prices_reading _ = ignored

abbrev pub position_events_reading : PositionEventsCall → Reading
position_events_reading (position_events_get _ _) = json_body
position_events_reading (position_events_create _) = whole
position_events_reading (position_events_update _ _) = sent
position_events_reading (position_events_remove _) = ignored

abbrev pub reconciliations_reading : ReconciliationsCall → Reading
reconciliations_reading (reconciliations_list _ _) = json_body
reconciliations_reading _ = sent

abbrev pub conversions_reading : ConversionsCall → Reading
conversions_reading _ = sent

abbrev pub corporate_actions_reading : CorporateActionsCall → Reading
corporate_actions_reading _ = sent

abbrev pub estate_reading : EstateCall → Reading
estate_reading estate_get = json_body
estate_reading (estate_get_snapshot _) = json_body
estate_reading _ = sent

abbrev pub api_keys_reading : ApiKeysCall → Reading
api_keys_reading api_keys_list = member_of_json "keys"
api_keys_reading _ = sent

abbrev pub connected_apps_reading : ConnectedAppsCall → Reading
connected_apps_reading connected_apps_list = member_of_json "apps"
connected_apps_reading _ = sent

abbrev pub oauth_reading : OauthCall → Reading
oauth_reading (oauth_request _) = json_body
oauth_reading _ = sent

abbrev pub goals_reading : GoalsCall → Reading
goals_reading (goals_update _ _) = ignored
goals_reading (goals_remove _) = ignored
goals_reading (goals_set_status _ _) = ignored
goals_reading (goals_remove_milestone _ _) = ignored
goals_reading (goals_dismiss_alert _) = ignored
goals_reading _ = whole

abbrev pub reports_reading : ReportsCall → Reading
reports_reading reports_summary = whole
reports_reading reports_allocation = whole
reports_reading _ = json_body

abbrev pub settings_reading : SettingsCall → Reading
settings_reading settings_get = whole
settings_reading _ = ignored

abbrev pub categories_reading : CategoriesCall → Reading
categories_reading categories_list = member_of_data "items"
categories_reading (categories_create _) = whole
categories_reading _ = ignored

abbrev pub institutions_reading : InstitutionsCall → Reading
institutions_reading institutions_list = member_of_data "items"
institutions_reading (institutions_create _) = whole
institutions_reading _ = ignored

abbrev pub exchange_rates_reading : ExchangeRatesCall → Reading
exchange_rates_reading (exchange_rates_create _ _) = whole
exchange_rates_reading _ = ignored

abbrev pub imports_reading : ImportsCall → Reading
imports_reading _ = json_body

abbrev pub exports_reading : ExportsCall → Reading
exports_reading exports_user_archive = whole
exports_reading exports_transactions_csv = as_content
exports_reading exports_accounts_csv = as_content
exports_reading (exports_restore _) = whole
exports_reading exports_restore_file = json_body

abbrev pub reading : Call → Reading
reading (auth c) = auth_reading c
reading (dashboard c) = dashboard_reading c
reading (accounts c) = accounts_reading c
reading (activity c) = activity_reading c
reading (transactions c) = transactions_reading c
reading (valuations c) = valuations_reading c
reading (transfers c) = transfers_reading c
reading (instruments c) = instruments_reading c
reading (prices c) = prices_reading c
reading (position_events c) = position_events_reading c
reading (reconciliations c) = reconciliations_reading c
reading (conversions c) = conversions_reading c
reading (corporate_actions c) = corporate_actions_reading c
reading (estate c) = estate_reading c
reading (api_keys c) = api_keys_reading c
reading (connected_apps c) = connected_apps_reading c
reading (oauth c) = oauth_reading c
reading (goals c) = goals_reading c
reading (reports c) = reports_reading c
reading (settings c) = settings_reading c
reading (categories c) = categories_reading c
reading (institutions c) = institutions_reading c
reading (exchange_rates c) = exchange_rates_reading c
reading (imports c) = imports_reading c
reading (exports c) = exports_reading c

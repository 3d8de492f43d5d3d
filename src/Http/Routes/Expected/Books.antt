-- ===== src/Http/Routes/Expected/Books.antt =====
-- The operations of web/src/api/schema.ts that the calls of web/src/api/datasource.ts are for:
-- those on the dashboard, accounts, activity and the ledger.
use wealthboard.Contract.{Operation}
use wealthboard.Http.Calls.{
  DashboardCall, dashboard_get, AccountsCall, accounts_list, accounts_summaries, accounts_get,
  accounts_create, accounts_update, accounts_set_archived, accounts_remove, accounts_analytics,
  accounts_extras, accounts_activity, accounts_transactions, accounts_valuations,
  accounts_position_events, ActivityCall, activity_list, TransactionsCall, transactions_create,
  transactions_update, transactions_remove, ValuationsCall, valuations_create, valuations_remove,
  TransfersCall, transfers_create,
}
use wealthboard.Contract.Operations.Accounts.{
  list_accounts, create_account, get_account, delete_account, update_account, set_account_archived,
  list_account_transactions, list_account_valuations, list_account_activity,
  list_account_position_events,
}
use wealthboard.Contract.Operations.Ledger.{
  create_transaction, delete_transaction, update_transaction, create_valuation, delete_valuation,
  create_transfer,
}
use wealthboard.Contract.Operations.Reports.{
  get_dashboard, get_account_analytics, list_account_summaries, get_account_extras, list_activity,
}

abbrev pub dashboard_operation : DashboardCall → Operation
dashboard_operation (dashboard_get _) = get_dashboard

abbrev pub accounts_operation : AccountsCall → Operation
accounts_operation (accounts_list _) = list_accounts
accounts_operation accounts_summaries = list_account_summaries
accounts_operation (accounts_get _) = get_account
accounts_operation (accounts_create _) = create_account
accounts_operation (accounts_update _ _) = update_account
accounts_operation (accounts_set_archived _ _) = set_account_archived
accounts_operation (accounts_remove _ _) = delete_account
accounts_operation (accounts_analytics _) = get_account_analytics
accounts_operation (accounts_extras _) = get_account_extras
accounts_operation (accounts_activity _ _) = list_account_activity
accounts_operation (accounts_transactions _ _) = list_account_transactions
accounts_operation (accounts_valuations _ _) = list_account_valuations
accounts_operation (accounts_position_events _ _) = list_account_position_events

abbrev pub activity_operation : ActivityCall → Operation
activity_operation (activity_list _) = list_activity

abbrev pub transactions_operation : TransactionsCall → Operation
transactions_operation (transactions_create _) = create_transaction
transactions_operation (transactions_update _ _) = update_transaction
transactions_operation (transactions_remove _) = delete_transaction

abbrev pub valuations_operation : ValuationsCall → Operation
valuations_operation (valuations_create _) = create_valuation
valuations_operation (valuations_remove _) = delete_valuation

abbrev pub transfers_operation : TransfersCall → Operation
transfers_operation (transfers_create _) = create_transfer

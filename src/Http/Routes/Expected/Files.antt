-- ===== src/Http/Routes/Expected/Files.antt =====
-- The operations of web/src/api/schema.ts that the calls of web/src/api/datasource.ts are for:
-- those on sessions, imports and exports.
use wealthboard.Contract.{Operation}
use wealthboard.Http.Calls.{
  AuthCall, auth_config, auth_session, auth_login, auth_signup, auth_logout, auth_change_password,
  auth_link_oidc, auth_unlink_oidc, auth_reauthenticate_oidc, auth_enable_local_credential,
  auth_remove_local_credential, ImportsCall, imports_preview_account_history,
  imports_commit_account_history, imports_preview_investment_history,
  imports_commit_investment_history, ExportsCall, exports_user_archive, exports_transactions_csv,
  exports_accounts_csv, exports_restore, exports_restore_file,
}
use wealthboard.Contract.Operations.Catalogue.{get_auth_config}
use wealthboard.Contract.Operations.Imports.{
  preview_account_history_import, commit_account_history_import, preview_investment_history_import,
  commit_investment_history_import, export_user_archive, export_transactions_csv,
  export_accounts_csv, restore_user_archive,
}
use wealthboard.Contract.Operations.Sessions.{
  signup, login, start_oidc_link, unlink_oidc_identity, start_oidc_reauthentication,
  enable_local_credential, remove_local_credential, logout, change_password, get_session,
}

abbrev pub auth_operation : AuthCall → Operation
auth_operation auth_config = get_auth_config
auth_operation auth_session = get_session
auth_operation (auth_login _) = login
auth_operation (auth_signup _) = signup
auth_operation auth_logout = logout
auth_operation (auth_change_password _) = change_password
auth_operation (auth_link_oidc _) = start_oidc_link
auth_operation (auth_unlink_oidc _) = unlink_oidc_identity
auth_operation (auth_reauthenticate_oidc _) = start_oidc_reauthentication
auth_operation (auth_enable_local_credential _) = enable_local_credential
auth_operation auth_remove_local_credential = remove_local_credential

abbrev pub imports_operation : ImportsCall → Operation
imports_operation (imports_preview_account_history _ _) = preview_account_history_import
imports_operation (imports_commit_account_history _ _ _) = commit_account_history_import
imports_operation (imports_preview_investment_history _ _) = preview_investment_history_import
imports_operation (imports_commit_investment_history _ _ _) = commit_investment_history_import

abbrev pub exports_operation : ExportsCall → Operation
exports_operation exports_user_archive = export_user_archive
exports_operation exports_transactions_csv = export_transactions_csv
exports_operation exports_accounts_csv = export_accounts_csv
exports_operation (exports_restore _) = restore_user_archive
exports_operation exports_restore_file = restore_user_archive

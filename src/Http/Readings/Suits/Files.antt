-- ===== src/Http/Readings/Suits/Files.antt =====
-- web/src/api/http/httpAdapter.ts: how the calls on sessions, imports and exports
-- read, against the answers of their operations.
use wealthboard.Base.{true, ◌≡◌, refl, same}
use wealthboard.Http.Readings.Each.{auth_reading, imports_reading, exports_reading}
use wealthboard.Http.Routes.Expected.Files.{auth_operation, imports_operation, exports_operation}
use wealthboard.Http.Calls.{
  AuthCall, auth_config, auth_session, auth_login, auth_signup, auth_logout, auth_change_password,
  auth_link_oidc, auth_unlink_oidc, auth_reauthenticate_oidc, auth_enable_local_credential,
  auth_remove_local_credential, ImportsCall, imports_preview_account_history,
  imports_commit_account_history, imports_preview_investment_history,
  imports_commit_investment_history, ExportsCall, exports_user_archive, exports_transactions_csv,
  exports_accounts_csv, exports_restore, exports_restore_file,
}
use wealthboard.Http.Readings.Answers.{suits_all}

pub suits_all-auth_reading :
    (x : AuthCall) → suits_all (auth_reading x) (auth_operation x).answers ≡ true
unfolding suits_all same
suits_all-auth_reading auth_config = refl
suits_all-auth_reading auth_session = refl
suits_all-auth_reading (auth_login b) = refl
suits_all-auth_reading (auth_signup b) = refl
suits_all-auth_reading auth_logout = refl
suits_all-auth_reading (auth_change_password b) = refl
suits_all-auth_reading (auth_link_oidc p) = refl
suits_all-auth_reading (auth_unlink_oidc p) = refl
suits_all-auth_reading (auth_reauthenticate_oidc n) = refl
suits_all-auth_reading (auth_enable_local_credential b) = refl
suits_all-auth_reading auth_remove_local_credential = refl

pub suits_all-imports_reading :
    (x : ImportsCall) → suits_all (imports_reading x) (imports_operation x).answers ≡ true
unfolding suits_all same
suits_all-imports_reading (imports_preview_account_history i f) = refl
suits_all-imports_reading (imports_commit_account_history i f h) = refl
suits_all-imports_reading (imports_preview_investment_history i f) = refl
suits_all-imports_reading (imports_commit_investment_history i f h) = refl

pub suits_all-exports_reading :
    (x : ExportsCall) → suits_all (exports_reading x) (exports_operation x).answers ≡ true
unfolding suits_all same
suits_all-exports_reading exports_user_archive = refl
suits_all-exports_reading exports_transactions_csv = refl
suits_all-exports_reading exports_accounts_csv = refl
suits_all-exports_reading (exports_restore a) = refl
suits_all-exports_reading exports_restore_file = refl

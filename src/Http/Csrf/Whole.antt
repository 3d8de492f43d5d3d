-- ===== src/Http/Csrf/Whole.antt =====
-- web/src/api/http/httpAdapter.ts: the CSRF token on the requests of sessions and files, and so of every call.
use wealthboard.Base.{ℕ, [], ◌∷◌, some, Text, same, refl, arith}
use wealthboard.Http.Requests.Sessions.{auth_request}
use wealthboard.Http.Requests.Files.{imports_request, exports_request}
use wealthboard.Http.Requests.{request}
use wealthboard.Http.Csrf.Ledger.{
  dashboard_request-Carries, accounts_request-Carries, activity_request-Carries,
  transactions_request-Carries, valuations_request-Carries, transfers_request-Carries,
  instruments_request-Carries, prices_request-Carries, position_events_request-Carries,
  reconciliations_request-Carries, conversions_request-Carries, corporate_actions_request-Carries,
}
use wealthboard.Http.Csrf.Plans.{
  estate_request-Carries, api_keys_request-Carries, connected_apps_request-Carries,
  oauth_request_of-Carries, goals_request-Carries, reports_request-Carries,
  settings_request-Carries, categories_request-Carries, institutions_request-Carries,
  exchange_rates_request-Carries,
}
use wealthboard.Http.Calls.{
  AuthCall, auth_config, auth_session, auth_login, auth_signup, auth_logout, auth_change_password,
  auth_link_oidc, auth_unlink_oidc, auth_reauthenticate_oidc, auth_enable_local_credential,
  auth_remove_local_credential, ImportsCall, imports_preview_account_history,
  imports_commit_account_history, imports_preview_investment_history,
  imports_commit_investment_history, ExportsCall, exports_user_archive, exports_transactions_csv,
  exports_accounts_csv, exports_restore, exports_restore_file, Call, auth, dashboard, accounts,
  activity, transactions, valuations, transfers, instruments, prices, position_events,
  reconciliations, conversions, corporate_actions, estate, api_keys, connected_apps, oauth, goals,
  reports, settings, categories, institutions, exchange_rates, imports, exports,
}
use wealthboard.Http.Csrf.{header_of, header_of-set_if, Carries}

module _ (first : ℕ) (tail : Text) where
  pub auth_request-Carries :
      (x : AuthCall) → Carries (first ∷ tail) (auth_request (some (first ∷ tail)) x)
  unfolding auth_request header_of same
  auth_request-Carries auth_config = λ m. absurd (ground arith)
  auth_request-Carries auth_session = λ m. absurd (ground arith)
  auth_request-Carries (auth_login b) = λ m. refl
  auth_request-Carries (auth_signup b) = λ m. refl
  auth_request-Carries auth_logout = λ m. refl
  auth_request-Carries (auth_change_password b) = λ m. refl
  auth_request-Carries (auth_link_oidc p) = λ m. refl
  auth_request-Carries (auth_unlink_oidc p) = λ m. refl
  auth_request-Carries (auth_reauthenticate_oidc n) = λ m. refl
  auth_request-Carries (auth_enable_local_credential b) = λ m. refl
  auth_request-Carries auth_remove_local_credential = λ m. refl

  pub imports_request-Carries :
      (x : ImportsCall) → Carries (first ∷ tail) (imports_request (some (first ∷ tail)) x)
  unfolding imports_request header_of same
  imports_request-Carries (imports_preview_account_history i f) = λ m. refl
  imports_request-Carries (imports_commit_account_history i f h) = λ m.
      header_of-set_if "X-CSRF-Token" "X-Preview-Hash" h (("X-CSRF-Token", first ∷ tail) ∷ []) refl
  imports_request-Carries (imports_preview_investment_history i f) = λ m. refl
  imports_request-Carries (imports_commit_investment_history i f h) = λ m.
      header_of-set_if "X-CSRF-Token" "X-Preview-Hash" h (("X-CSRF-Token", first ∷ tail) ∷ []) refl

  pub exports_request-Carries :
      (x : ExportsCall) → Carries (first ∷ tail) (exports_request (some (first ∷ tail)) x)
  unfolding exports_request header_of same
  exports_request-Carries exports_user_archive = λ m. absurd (ground arith)
  exports_request-Carries exports_transactions_csv = λ m. absurd (ground arith)
  exports_request-Carries exports_accounts_csv = λ m. absurd (ground arith)
  exports_request-Carries (exports_restore a) = λ m. refl
  exports_request-Carries exports_restore_file = λ m. refl

-- When the adapter holds a token that is not empty, the request of every call whose method is POST, PUT, PATCH or DELETE has the token as its `X-CSRF-Token` header.
pub request-Carries :
    (first : ℕ) (tail : Text) (x : Call) → Carries (first ∷ tail) (request (some (first ∷ tail)) x)
unfolding request
request-Carries first tail (auth x) = auth_request-Carries first tail x
request-Carries first tail (dashboard x) = dashboard_request-Carries first tail x
request-Carries first tail (accounts x) = accounts_request-Carries first tail x
request-Carries first tail (activity x) = activity_request-Carries first tail x
request-Carries first tail (transactions x) = transactions_request-Carries first tail x
request-Carries first tail (valuations x) = valuations_request-Carries first tail x
request-Carries first tail (transfers x) = transfers_request-Carries first tail x
request-Carries first tail (instruments x) = instruments_request-Carries first tail x
request-Carries first tail (prices x) = prices_request-Carries first tail x
request-Carries first tail (position_events x) = position_events_request-Carries first tail x
request-Carries first tail (reconciliations x) = reconciliations_request-Carries first tail x
request-Carries first tail (conversions x) = conversions_request-Carries first tail x
request-Carries first tail (corporate_actions x) = corporate_actions_request-Carries first tail x
request-Carries first tail (estate x) = estate_request-Carries first tail x
request-Carries first tail (api_keys x) = api_keys_request-Carries first tail x
request-Carries first tail (connected_apps x) = connected_apps_request-Carries first tail x
request-Carries first tail (oauth x) = oauth_request_of-Carries first tail x
request-Carries first tail (goals x) = goals_request-Carries first tail x
request-Carries first tail (reports x) = reports_request-Carries first tail x
request-Carries first tail (settings x) = settings_request-Carries first tail x
request-Carries first tail (categories x) = categories_request-Carries first tail x
request-Carries first tail (institutions x) = institutions_request-Carries first tail x
request-Carries first tail (exchange_rates x) = exchange_rates_request-Carries first tail x
request-Carries first tail (imports x) = imports_request-Carries first tail x
request-Carries first tail (exports x) = exports_request-Carries first tail x

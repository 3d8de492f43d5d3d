-- ===== src/Http/Routes/Files.antt =====
-- web/src/api/http/httpAdapter.ts: the requests of sessions, imports and exports
-- against the contract.
use wealthboard.Base.{All, ℕ, List, ◌∷◌, some, Text, ◌≡◌, true, same, refl, [], codes, arith}
use wealthboard.Contract.{post}
use wealthboard.Http.Requests.Sessions.{auth_request}
use wealthboard.Http.Requests.Files.{imports_request}
use wealthboard.Http.Requests.Files.{exports_request}
use wealthboard.Http.Routes.Expected.Files.{auth_operation, imports_operation, exports_operation}
use wealthboard.Http.Calls.{
  AuthCall, auth_config, auth_session, auth_login, auth_signup, auth_logout, auth_change_password,
  auth_link_oidc, auth_unlink_oidc, auth_reauthenticate_oidc, auth_enable_local_credential,
  auth_remove_local_credential, ImportsCall, imports_preview_account_history,
  imports_commit_account_history, imports_preview_investment_history,
  imports_commit_investment_history, ExportsCall, exports_user_archive, exports_transactions_csv,
  exports_accounts_csv, exports_restore, exports_restore_file,
}
use wealthboard.Http.Inputs.{ImportFormat, csv, json_format, format_type}
use wealthboard.Http.Routes.{split, operations_for, is_named, fulfils, Conforms}
use wealthboard.Http.Routes.Segments.{IsSegment, at_middle}
use wealthboard.Contract.Shared.{import_preview}

-- The IDs that a call writes into a path.
abbrev pub imports_ids : ImportsCall → List Text
imports_ids (imports_preview_account_history i _) = i ∷ []
imports_ids (imports_commit_account_history i _ _) = i ∷ []
imports_ids (imports_preview_investment_history i _) = i ∷ []
imports_ids (imports_commit_investment_history i _ _) = i ∷ []

-- Both formats of an import file are media types of the imports.
format_type-named : (x : ImportFormat) → is_named (format_type x) import_preview ≡ true
unfolding is_named same
format_type-named csv = refl
format_type-named json_format = refl

-- The adapter holds a token, which is not empty.
module _ (first : ℕ) (tail : Text) where
  pub auth_request-Conforms :
      (x : AuthCall) → Conforms (auth_request (some (first ∷ tail)) x) (auth_operation x)
  unfolding auth_request operations_for fulfils split
  auth_request-Conforms auth_config = (refl, refl)
  auth_request-Conforms auth_session = (refl, refl)
  auth_request-Conforms (auth_login b) = (refl, refl)
  auth_request-Conforms (auth_signup b) = (refl, refl)
  auth_request-Conforms auth_logout = (refl, refl)
  auth_request-Conforms (auth_change_password b) = (refl, refl)
  auth_request-Conforms (auth_link_oidc p) = (refl, refl)
  auth_request-Conforms (auth_unlink_oidc p) = (refl, refl)
  auth_request-Conforms (auth_reauthenticate_oidc n) = (refl, refl)
  auth_request-Conforms (auth_enable_local_credential b) = (refl, refl)
  auth_request-Conforms auth_remove_local_credential = (refl, refl)

  pub imports_request-Conforms :
      (x : ImportsCall)
      → All IsSegment (imports_ids x)
      → Conforms (imports_request (some (first ∷ tail)) x) (imports_operation x)
  unfolding imports_request operations_for fulfils split
  imports_request-Conforms (imports_preview_account_history [] f) ((e, u), _) =
      absurd (ground arith)
  imports_request-Conforms (imports_preview_account_history (c ∷ s) f) ((_, u), _) = (
    at_middle post (codes "/accounts/") ([] ∷ codes "accounts" ∷ []) (λ t. refl) (c ∷ s) u
        (codes "history-import/preview") (codes "history-import" ∷ codes "preview" ∷ []) refl refl,
    rw (format_type-named f.format) refl,
  )
  imports_request-Conforms (imports_commit_account_history [] f h) ((e, u), _) =
      absurd (ground arith)
  imports_request-Conforms (imports_commit_account_history (c ∷ s) f h) ((_, u), _) = (
    at_middle post (codes "/accounts/") ([] ∷ codes "accounts" ∷ []) (λ t. refl) (c ∷ s) u
        (codes "history-import/commit") (codes "history-import" ∷ codes "commit" ∷ []) refl refl,
    rw (format_type-named f.format) refl,
  )
  imports_request-Conforms (imports_preview_investment_history [] f) ((e, u), _) =
      absurd (ground arith)
  imports_request-Conforms (imports_preview_investment_history (c ∷ s) f) ((_, u), _) = (
    at_middle post (codes "/accounts/") ([] ∷ codes "accounts" ∷ []) (λ t. refl) (c ∷ s) u
        (codes "investment-import/preview") (codes "investment-import" ∷ codes "preview" ∷ []) refl
        refl,
    rw (format_type-named f.format) refl,
  )
  imports_request-Conforms (imports_commit_investment_history [] f h) ((e, u), _) =
      absurd (ground arith)
  imports_request-Conforms (imports_commit_investment_history (c ∷ s) f h) ((_, u), _) = (
    at_middle post (codes "/accounts/") ([] ∷ codes "accounts" ∷ []) (λ t. refl) (c ∷ s) u
        (codes "investment-import/commit") (codes "investment-import" ∷ codes "commit" ∷ []) refl
        refl,
    rw (format_type-named f.format) refl,
  )

  pub exports_request-Conforms :
      (x : ExportsCall) → Conforms (exports_request (some (first ∷ tail)) x) (exports_operation x)
  unfolding exports_request operations_for fulfils split
  exports_request-Conforms exports_user_archive = (refl, refl)
  exports_request-Conforms exports_transactions_csv = (refl, refl)
  exports_request-Conforms exports_accounts_csv = (refl, refl)
  exports_request-Conforms (exports_restore a) = (refl, refl)
  exports_request-Conforms exports_restore_file = (refl, refl)

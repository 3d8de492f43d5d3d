-- ===== src/Contract/Paths/Personal.antt =====
-- web/src/api/schema.ts: the paths of imports, exports, the estate and access.
use wealthboard.Base.{List, [], ◌∷◌}
use wealthboard.Contract.{PathItem, get, put, post, delete, patch}
use wealthboard.Contract.Operations.Access.{
  approve_oauth_consent_request, clear_connected_app_calls, create_api_key,
  deny_oauth_consent_request, get_oauth_consent_request, list_api_keys, list_connected_apps,
  revoke_all_api_keys, revoke_api_key, revoke_connected_app,
}
use wealthboard.Contract.Operations.Imports.{
  commit_account_history_import, commit_investment_history_import, export_accounts_csv,
  export_transactions_csv, export_user_archive, preview_account_history_import,
  preview_investment_history_import, restore_user_archive,
}
use wealthboard.Contract.Operations.Sessions.{
  change_password, complete_oidc_authentication, enable_local_credential, get_principal,
  get_session, login, logout, remove_local_credential, signup, start_oidc_link, start_oidc_login,
  start_oidc_reauthentication, unlink_oidc_identity,
}
use wealthboard.Contract.Operations.Snapshots.{
  create_estate_snapshot, delete_estate_allocation, delete_estate_residuary_allocation,
  delete_estate_snapshot, get_estate_snapshot, upsert_estate_residuary_allocation,
}
use wealthboard.Contract.Operations.Wills.{
  create_estate_beneficiary, get_estate_workspace, set_estate_beneficiary_archived,
  update_estate_beneficiary, update_estate_plan, upsert_estate_allocation, upsert_estate_directive,
}

abbrev pub last_accounts_paths : List PathItem
last_accounts_paths =
    record {
      template = "/accounts/{accountID}/history-import/preview";
      operations = (post, preview_account_history_import) ∷ [];
    }
    ∷ record {
      template = "/accounts/{accountID}/history-import/commit";
      operations = (post, commit_account_history_import) ∷ [];
    }
    ∷ record {
      template = "/accounts/{accountID}/investment-import/preview";
      operations = (post, preview_investment_history_import) ∷ [];
    }
    ∷ record {
      template = "/accounts/{accountID}/investment-import/commit";
      operations = (post, commit_investment_history_import) ∷ [];
    }
    ∷ []

abbrev pub exports_paths : List PathItem
exports_paths =
    record { template = "/exports/user"; operations = (get, export_user_archive) ∷ [] }
    ∷ record {
      template = "/exports/transactions.csv";
      operations = (get, export_transactions_csv) ∷ [];
    }
    ∷ record { template = "/exports/accounts.csv"; operations = (get, export_accounts_csv) ∷ [] }
    ∷ record { template = "/restore/user"; operations = (post, restore_user_archive) ∷ [] }
    ∷ []

abbrev pub estate_paths : List PathItem
estate_paths =
    record { template = "/estate"; operations = (get, get_estate_workspace) ∷ [] }
    ∷ record { template = "/estate/plan"; operations = (put, update_estate_plan) ∷ [] }
    ∷ record {
      template = "/estate/beneficiaries";
      operations = (post, create_estate_beneficiary) ∷ [];
    }
    ∷ record {
      template = "/estate/beneficiaries/{id}";
      operations = (put, update_estate_beneficiary) ∷ [];
    }
    ∷ record {
      template = "/estate/beneficiaries/{id}/archive";
      operations = (patch, set_estate_beneficiary_archived) ∷ [];
    }
    ∷ record {
      template = "/estate/directives/{id}";
      operations = (put, upsert_estate_directive) ∷ [];
    }
    ∷ record {
      template = "/estate/allocations/{id}";
      operations = (put, upsert_estate_allocation) ∷ (delete, delete_estate_allocation) ∷ [];
    }
    ∷ []

abbrev pub further_estate_paths : List PathItem
further_estate_paths =
    record {
      template = "/estate/residuary";
      operations = (put, upsert_estate_residuary_allocation) ∷ [];
    }
    ∷ record {
      template = "/estate/residuary/{id}";
      operations = (delete, delete_estate_residuary_allocation) ∷ [];
    }
    ∷ record { template = "/estate/snapshots"; operations = (post, create_estate_snapshot) ∷ [] }
    ∷ record {
      template = "/estate/snapshots/{id}";
      operations = (get, get_estate_snapshot) ∷ (delete, delete_estate_snapshot) ∷ [];
    }
    ∷ []

abbrev pub api_keys_paths : List PathItem
api_keys_paths =
    record {
      template = "/api-keys";
      operations = (get, list_api_keys) ∷ (post, create_api_key) ∷ [];
    }
    ∷ record { template = "/api-keys/{id}"; operations = (delete, revoke_api_key) ∷ [] }
    ∷ record { template = "/api-keys/revoke-all"; operations = (post, revoke_all_api_keys) ∷ [] }
    ∷ record {
      template = "/oauth/requests/{id}";
      operations = (get, get_oauth_consent_request) ∷ [];
    }
    ∷ record {
      template = "/oauth/requests/{id}/approve";
      operations = (post, approve_oauth_consent_request) ∷ [];
    }
    ∷ []

abbrev pub oauth_paths : List PathItem
oauth_paths =
    record {
      template = "/oauth/requests/{id}/deny";
      operations = (post, deny_oauth_consent_request) ∷ [];
    }
    ∷ record { template = "/connected-apps"; operations = (get, list_connected_apps) ∷ [] }
    ∷ record { template = "/connected-apps/{id}"; operations = (delete, revoke_connected_app) ∷ [] }
    ∷ record {
      template = "/connected-apps/{id}/calls";
      operations = (delete, clear_connected_app_calls) ∷ [];
    }
    ∷ record { template = "/auth/signup"; operations = (post, signup) ∷ [] }
    ∷ []

abbrev pub further_auth_paths : List PathItem
further_auth_paths =
    record { template = "/auth/login"; operations = (post, login) ∷ [] }
    ∷ record { template = "/auth/oidc/start"; operations = (get, start_oidc_login) ∷ [] }
    ∷ record {
      template = "/auth/oidc/callback";
      operations = (get, complete_oidc_authentication) ∷ [];
    }
    ∷ record {
      template = "/auth/oidc/link";
      operations = (post, start_oidc_link) ∷ (delete, unlink_oidc_identity) ∷ [];
    }
    ∷ record {
      template = "/auth/oidc/reauth";
      operations = (post, start_oidc_reauthentication) ∷ [];
    }
    ∷ record {
      template = "/auth/local-credential";
      operations = (post, enable_local_credential) ∷ (delete, remove_local_credential) ∷ [];
    }
    ∷ record { template = "/auth/logout"; operations = (post, logout) ∷ [] }
    ∷ record { template = "/auth/change-password"; operations = (post, change_password) ∷ [] }
    ∷ []

abbrev pub other_auth_paths : List PathItem
other_auth_paths =
    record { template = "/auth/principal"; operations = (get, get_principal) ∷ [] }
    ∷ record { template = "/session"; operations = (get, get_session) ∷ [] }
    ∷ []

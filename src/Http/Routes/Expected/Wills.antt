-- ===== src/Http/Routes/Expected/Wills.antt =====
-- The operations of web/src/api/schema.ts that the calls of web/src/api/datasource.ts are for:
-- those on the estate, keys, connected apps and consents.
use wealthboard.Contract.{Operation}
use wealthboard.Http.Calls.{
  EstateCall, estate_get, estate_update_plan, estate_create_beneficiary, estate_update_beneficiary,
  estate_set_beneficiary_archived, estate_upsert_directive, estate_upsert_allocation,
  estate_remove_allocation, estate_upsert_residuary, estate_remove_residuary,
  estate_create_snapshot, estate_get_snapshot, estate_remove_snapshot, ApiKeysCall, api_keys_list,
  api_keys_create, api_keys_revoke, api_keys_revoke_all, ConnectedAppsCall, connected_apps_list,
  connected_apps_revoke, connected_apps_clear_calls, OauthCall, oauth_request, oauth_approve,
  oauth_deny,
}
use wealthboard.Contract.Operations.Access.{
  list_api_keys, create_api_key, revoke_api_key, revoke_all_api_keys, get_oauth_consent_request,
  approve_oauth_consent_request, deny_oauth_consent_request, list_connected_apps,
  revoke_connected_app, clear_connected_app_calls,
}
use wealthboard.Contract.Operations.Snapshots.{
  delete_estate_allocation, upsert_estate_residuary_allocation, delete_estate_residuary_allocation,
  create_estate_snapshot, get_estate_snapshot, delete_estate_snapshot,
}
use wealthboard.Contract.Operations.Wills.{
  get_estate_workspace, update_estate_plan, create_estate_beneficiary, update_estate_beneficiary,
  set_estate_beneficiary_archived, upsert_estate_directive, upsert_estate_allocation,
}

abbrev pub estate_operation : EstateCall → Operation
estate_operation estate_get = get_estate_workspace
estate_operation (estate_update_plan _) = update_estate_plan
estate_operation (estate_create_beneficiary _) = create_estate_beneficiary
estate_operation (estate_update_beneficiary _ _) = update_estate_beneficiary
estate_operation (estate_set_beneficiary_archived _ _) = set_estate_beneficiary_archived
estate_operation (estate_upsert_directive _ _) = upsert_estate_directive
estate_operation (estate_upsert_allocation _ _) = upsert_estate_allocation
estate_operation (estate_remove_allocation _) = delete_estate_allocation
estate_operation (estate_upsert_residuary _) = upsert_estate_residuary_allocation
estate_operation (estate_remove_residuary _) = delete_estate_residuary_allocation
estate_operation estate_create_snapshot = create_estate_snapshot
estate_operation (estate_get_snapshot _) = get_estate_snapshot
estate_operation (estate_remove_snapshot _) = delete_estate_snapshot

abbrev pub api_keys_operation : ApiKeysCall → Operation
api_keys_operation api_keys_list = list_api_keys
api_keys_operation (api_keys_create _) = create_api_key
api_keys_operation (api_keys_revoke _) = revoke_api_key
api_keys_operation api_keys_revoke_all = revoke_all_api_keys

abbrev pub connected_apps_operation : ConnectedAppsCall → Operation
connected_apps_operation connected_apps_list = list_connected_apps
connected_apps_operation (connected_apps_revoke _) = revoke_connected_app
connected_apps_operation (connected_apps_clear_calls _) = clear_connected_app_calls

abbrev pub oauth_operation : OauthCall → Operation
oauth_operation (oauth_request _) = get_oauth_consent_request
oauth_operation (oauth_approve _ _ _) = approve_oauth_consent_request
oauth_operation (oauth_deny _) = deny_oauth_consent_request

-- ===== src/Http/Requests/Wills.antt =====
-- web/src/api/http/httpAdapter.ts: the requests of the estate, keys, connected apps and consents.
use wealthboard.Base.{[], ◌++◌, Option, none, Text, codes}
use wealthboard.Http.Calls.{
  EstateCall, estate_get, estate_update_plan, estate_create_beneficiary, estate_update_beneficiary,
  estate_set_beneficiary_archived, estate_upsert_directive, estate_upsert_allocation,
  estate_remove_allocation, estate_upsert_residuary, estate_remove_residuary,
  estate_create_snapshot, estate_get_snapshot, estate_remove_snapshot, ApiKeysCall, api_keys_list,
  api_keys_create, api_keys_revoke, api_keys_revoke_all, ConnectedAppsCall, connected_apps_list,
  connected_apps_revoke, connected_apps_clear_calls, OauthCall, oauth_request, oauth_approve,
  oauth_deny,
}
use wealthboard.Http.{empty, json, Request}
use wealthboard.Http.Transport.{typed, raw, get_json, send_json}
use wealthboard.Json.{json_bool, json_text, json_object, no_fields, field, get_field, set_field}
use wealthboard.Contract.{put, post, delete, patch}

unfoldable pub estate_request : Option Text → EstateCall → Request
unfolding typed raw get_json send_json get_field set_field
estate_request token estate_get = get_json token (codes "/estate") []
estate_request token (estate_update_plan body) =
    send_json token (codes "/estate/plan") put (json (json_object body)) none
estate_request token (estate_create_beneficiary body) =
    send_json token (codes "/estate/beneficiaries") post (json (json_object body)) none
estate_request token (estate_update_beneficiary id body) =
    send_json token (codes "/estate/beneficiaries/" ++ id) put (json (json_object body)) none
estate_request token (estate_set_beneficiary_archived id archived) =
    send_json token (codes "/estate/beneficiaries/" ++ id ++ codes "/archive") patch
      (json (json_object (field "archived" (json_bool archived) no_fields))) none
estate_request token (estate_upsert_directive id body) =
    send_json token (codes "/estate/directives/" ++ id) put (json (json_object body)) none
estate_request token (estate_upsert_allocation id body) =
    send_json token (codes "/estate/allocations/" ++ id) put (json (json_object body)) none
estate_request token (estate_remove_allocation id) =
    send_json token (codes "/estate/allocations/" ++ id) delete empty none
estate_request token (estate_upsert_residuary body) =
    send_json token (codes "/estate/residuary") put (json (json_object body)) none
estate_request token (estate_remove_residuary id) =
    send_json token (codes "/estate/residuary/" ++ id) delete empty none
estate_request token estate_create_snapshot =
    send_json token (codes "/estate/snapshots") post empty none
estate_request token (estate_get_snapshot id) = get_json token (codes "/estate/snapshots/" ++ id) []
estate_request token (estate_remove_snapshot id) =
    send_json token (codes "/estate/snapshots/" ++ id) delete empty none

unfoldable pub api_keys_request : Option Text → ApiKeysCall → Request
unfolding typed raw get_json send_json get_field set_field
api_keys_request token api_keys_list = get_json token (codes "/api-keys") []
api_keys_request token (api_keys_create body) =
    send_json token (codes "/api-keys") post (json (json_object body)) none
api_keys_request token (api_keys_revoke id) =
    send_json token (codes "/api-keys/" ++ id) delete empty none
api_keys_request token api_keys_revoke_all =
    send_json token (codes "/api-keys/revoke-all") post empty none

unfoldable pub connected_apps_request : Option Text → ConnectedAppsCall → Request
unfolding typed raw get_json send_json get_field set_field
connected_apps_request token connected_apps_list = get_json token (codes "/connected-apps") []
connected_apps_request token (connected_apps_revoke id) =
    send_json token (codes "/connected-apps/" ++ id) delete empty none
connected_apps_request token (connected_apps_clear_calls id) =
    send_json token (codes "/connected-apps/" ++ id ++ codes "/calls") delete empty none

unfoldable pub oauth_request_of : Option Text → OauthCall → Request
unfolding typed raw get_json send_json get_field set_field
oauth_request_of token (oauth_request id) = get_json token (codes "/oauth/requests/" ++ id) []
oauth_request_of token (oauth_approve id level changes) =
    send_json token (codes "/oauth/requests/" ++ id ++ codes "/approve") post
      (json (
        json_object (
          field "dataLevel" (json_text level)
            (field "allowChanges" (json_bool changes) no_fields))))
      none
oauth_request_of token (oauth_deny id) =
    send_json token (codes "/oauth/requests/" ++ id ++ codes "/deny") post empty none

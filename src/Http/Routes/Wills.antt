-- ===== src/Http/Routes/Wills.antt =====
-- web/src/api/http/httpAdapter.ts: the requests of the estate, keys, connected apps and consents
-- against the contract.
use wealthboard.Base.{All, ℕ, List, ◌∷◌, some, Text, refl, [], codes, arith}
use wealthboard.Contract.{get, put, post, delete, patch}
use wealthboard.Http.Requests.Wills.{estate_request}
use wealthboard.Http.Requests.Wills.{api_keys_request}
use wealthboard.Http.Requests.Wills.{connected_apps_request}
use wealthboard.Http.Requests.Wills.{oauth_request_of}
use wealthboard.Http.Routes.Expected.Wills.{
  estate_operation, api_keys_operation, connected_apps_operation, oauth_operation,
}
use wealthboard.Http.Calls.{
  EstateCall, estate_get, estate_update_plan, estate_create_beneficiary, estate_update_beneficiary,
  estate_set_beneficiary_archived, estate_upsert_directive, estate_upsert_allocation,
  estate_remove_allocation, estate_upsert_residuary, estate_remove_residuary,
  estate_create_snapshot, estate_get_snapshot, estate_remove_snapshot, ApiKeysCall, api_keys_list,
  api_keys_create, api_keys_revoke, api_keys_revoke_all, ConnectedAppsCall, connected_apps_list,
  connected_apps_revoke, connected_apps_clear_calls, OauthCall, oauth_request, oauth_approve,
  oauth_deny,
}
use wealthboard.Http.Routes.{split, operations_for, fulfils, Conforms}
use wealthboard.Http.Routes.Segments.{IsSegment, at_end, at_middle}

-- The IDs that a call writes into a path.
abbrev pub estate_ids : EstateCall → List Text
estate_ids (estate_update_beneficiary i _) = i ∷ []
estate_ids (estate_set_beneficiary_archived i _) = i ∷ []
estate_ids (estate_upsert_directive i _) = i ∷ []
estate_ids (estate_upsert_allocation i _) = i ∷ []
estate_ids (estate_remove_allocation i) = i ∷ []
estate_ids (estate_remove_residuary i) = i ∷ []
estate_ids (estate_get_snapshot i) = i ∷ []
estate_ids (estate_remove_snapshot i) = i ∷ []
estate_ids _ = []

-- The IDs that a call writes into a path.
abbrev pub api_keys_ids : ApiKeysCall → List Text
api_keys_ids (api_keys_revoke i) = i ∷ []
api_keys_ids _ = []

-- The IDs that a call writes into a path.
abbrev pub connected_apps_ids : ConnectedAppsCall → List Text
connected_apps_ids (connected_apps_revoke i) = i ∷ []
connected_apps_ids (connected_apps_clear_calls i) = i ∷ []
connected_apps_ids _ = []

-- The IDs that a call writes into a path.
abbrev pub oauth_ids : OauthCall → List Text
oauth_ids (oauth_request i) = i ∷ []
oauth_ids (oauth_approve i _ _) = i ∷ []
oauth_ids (oauth_deny i) = i ∷ []

-- The adapter holds a token, which is not empty.
module _ (first : ℕ) (tail : Text) where
  pub estate_request-Conforms :
      (x : EstateCall)
      → All IsSegment (estate_ids x)
      → Conforms (estate_request (some (first ∷ tail)) x) (estate_operation x)
  unfolding estate_request operations_for fulfils split
  estate_request-Conforms estate_get _ = (refl, refl)
  estate_request-Conforms (estate_update_plan b) _ = (refl, refl)
  estate_request-Conforms (estate_create_beneficiary b) _ = (refl, refl)
  estate_request-Conforms (estate_update_beneficiary [] b) ((e, u), _) = absurd (ground arith)
  estate_request-Conforms (estate_update_beneficiary (c ∷ s) b) ((_, u), _) = (
    at_end put (codes "/estate/beneficiaries/") ([] ∷ codes "estate" ∷ codes "beneficiaries" ∷ [])
        (λ t. refl) (c ∷ s) u refl,
    refl,
  )
  estate_request-Conforms (estate_set_beneficiary_archived [] a) ((e, u), _) = absurd (ground arith)
  estate_request-Conforms (estate_set_beneficiary_archived (c ∷ s) a) ((_, u), _) = (
    at_middle patch (codes "/estate/beneficiaries/")
        ([] ∷ codes "estate" ∷ codes "beneficiaries" ∷ []) (λ t. refl) (c ∷ s) u (codes "archive")
        (codes "archive" ∷ []) refl refl,
    refl,
  )
  estate_request-Conforms (estate_upsert_directive [] b) ((e, u), _) = absurd (ground arith)
  estate_request-Conforms (estate_upsert_directive (c ∷ s) b) ((_, u), _) = (
    at_end put (codes "/estate/directives/") ([] ∷ codes "estate" ∷ codes "directives" ∷ [])
        (λ t. refl) (c ∷ s) u refl,
    refl,
  )
  estate_request-Conforms (estate_upsert_allocation [] b) ((e, u), _) = absurd (ground arith)
  estate_request-Conforms (estate_upsert_allocation (c ∷ s) b) ((_, u), _) = (
    at_end put (codes "/estate/allocations/") ([] ∷ codes "estate" ∷ codes "allocations" ∷ [])
        (λ t. refl) (c ∷ s) u refl,
    refl,
  )
  estate_request-Conforms (estate_remove_allocation []) ((e, u), _) = absurd (ground arith)
  estate_request-Conforms (estate_remove_allocation (c ∷ s)) ((_, u), _) = (
    at_end delete (codes "/estate/allocations/") ([] ∷ codes "estate" ∷ codes "allocations" ∷ [])
        (λ t. refl) (c ∷ s) u refl,
    refl,
  )
  estate_request-Conforms (estate_upsert_residuary b) _ = (refl, refl)
  estate_request-Conforms (estate_remove_residuary []) ((e, u), _) = absurd (ground arith)
  estate_request-Conforms (estate_remove_residuary (c ∷ s)) ((_, u), _) = (
    at_end delete (codes "/estate/residuary/") ([] ∷ codes "estate" ∷ codes "residuary" ∷ [])
        (λ t. refl) (c ∷ s) u refl,
    refl,
  )
  estate_request-Conforms estate_create_snapshot _ = (refl, refl)
  estate_request-Conforms (estate_get_snapshot []) ((e, u), _) = absurd (ground arith)
  estate_request-Conforms (estate_get_snapshot (c ∷ s)) ((_, u), _) = (
    at_end get (codes "/estate/snapshots/") ([] ∷ codes "estate" ∷ codes "snapshots" ∷ [])
        (λ t. refl) (c ∷ s) u refl,
    refl,
  )
  estate_request-Conforms (estate_remove_snapshot []) ((e, u), _) = absurd (ground arith)
  estate_request-Conforms (estate_remove_snapshot (c ∷ s)) ((_, u), _) = (
    at_end delete (codes "/estate/snapshots/") ([] ∷ codes "estate" ∷ codes "snapshots" ∷ [])
        (λ t. refl) (c ∷ s) u refl,
    refl,
  )

  pub api_keys_request-Conforms :
      (x : ApiKeysCall)
      → All IsSegment (api_keys_ids x)
      → Conforms (api_keys_request (some (first ∷ tail)) x) (api_keys_operation x)
  unfolding api_keys_request operations_for fulfils split
  api_keys_request-Conforms api_keys_list _ = (refl, refl)
  api_keys_request-Conforms (api_keys_create b) _ = (refl, refl)
  api_keys_request-Conforms (api_keys_revoke []) ((e, u), _) = absurd (ground arith)
  api_keys_request-Conforms (api_keys_revoke (c ∷ s)) ((_, u), _) = (
    at_end delete (codes "/api-keys/") ([] ∷ codes "api-keys" ∷ []) (λ t. refl) (c ∷ s) u refl,
    refl,
  )
  api_keys_request-Conforms api_keys_revoke_all _ = (refl, refl)

  pub connected_apps_request-Conforms :
      (x : ConnectedAppsCall)
      → All IsSegment (connected_apps_ids x)
      → Conforms (connected_apps_request (some (first ∷ tail)) x) (connected_apps_operation x)
  unfolding connected_apps_request operations_for fulfils split
  connected_apps_request-Conforms connected_apps_list _ = (refl, refl)
  connected_apps_request-Conforms (connected_apps_revoke []) ((e, u), _) = absurd (ground arith)
  connected_apps_request-Conforms (connected_apps_revoke (c ∷ s)) ((_, u), _) = (
    at_end delete (codes "/connected-apps/") ([] ∷ codes "connected-apps" ∷ []) (λ t. refl) (c ∷ s)
        u refl,
    refl,
  )
  connected_apps_request-Conforms (connected_apps_clear_calls []) ((e, u), _) =
      absurd (ground arith)
  connected_apps_request-Conforms (connected_apps_clear_calls (c ∷ s)) ((_, u), _) = (
    at_middle delete (codes "/connected-apps/") ([] ∷ codes "connected-apps" ∷ []) (λ t. refl)
        (c ∷ s) u (codes "calls") (codes "calls" ∷ []) refl refl,
    refl,
  )

  pub oauth_request_of-Conforms :
      (x : OauthCall)
      → All IsSegment (oauth_ids x)
      → Conforms (oauth_request_of (some (first ∷ tail)) x) (oauth_operation x)
  unfolding oauth_request_of operations_for fulfils split
  oauth_request_of-Conforms (oauth_request []) ((e, u), _) = absurd (ground arith)
  oauth_request_of-Conforms (oauth_request (c ∷ s)) ((_, u), _) = (
    at_end get (codes "/oauth/requests/") ([] ∷ codes "oauth" ∷ codes "requests" ∷ []) (λ t. refl)
        (c ∷ s) u refl,
    refl,
  )
  oauth_request_of-Conforms (oauth_approve [] l w) ((e, u), _) = absurd (ground arith)
  oauth_request_of-Conforms (oauth_approve (c ∷ s) l w) ((_, u), _) = (
    at_middle post (codes "/oauth/requests/") ([] ∷ codes "oauth" ∷ codes "requests" ∷ [])
        (λ t. refl) (c ∷ s) u (codes "approve") (codes "approve" ∷ []) refl refl,
    refl,
  )
  oauth_request_of-Conforms (oauth_deny []) ((e, u), _) = absurd (ground arith)
  oauth_request_of-Conforms (oauth_deny (c ∷ s)) ((_, u), _) = (
    at_middle post (codes "/oauth/requests/") ([] ∷ codes "oauth" ∷ codes "requests" ∷ [])
        (λ t. refl) (c ∷ s) u (codes "deny") (codes "deny" ∷ []) refl refl,
    refl,
  )

-- ===== src/Http/Requests/Sessions.antt =====
-- web/src/api/http/httpAdapter.ts: the requests of `auth`.
use Prim.Native.String.{String}
use wealthboard.Base.{List, [], ◌∷◌, ◌++◌, Option, none, some, Text, codes}
use wealthboard.Http.Calls.{
  AuthCall, auth_config, auth_session, auth_login, auth_signup, auth_logout, auth_change_password,
  auth_link_oidc, auth_unlink_oidc, auth_reauthenticate_oidc, auth_enable_local_credential,
  auth_remove_local_credential,
}
use wealthboard.Http.{url, Body, empty, json, Request, api_base, set_header, set_if}
use wealthboard.Http.Encode.{encode_uri_component}
use wealthboard.Http.Problem.{if_missing}
use wealthboard.Http.Transport.{typed, raw, get_json, send_json}
use wealthboard.Json.{json_text, json_object, no_fields, field, get_field, set_field}
use wealthboard.Contract.{get, post, delete}

-- The value of a parameter that `encodeURIComponent` writes; the page to return to has no lone
-- surrogate when the request is sent, since the call throws for one.
abbrev encoded : Text → Text
encoded s = if_missing (encode_uri_component s) []

abbrev with_type : Body → List (String × Text) → List (String × Text)
with_type empty hs = hs
with_type _ hs = set_header "Content-Type" (codes "application/json") hs

-- `redirectingPost`, whose path ends with a query.
unfoldable pub redirecting_post : Option Text → Text → List (String × Text) → Body → Request
unfolding set_if set_header
redirecting_post token path query body = record {
  method = post;
  target = url (api_base ++ path);
  query = query;
  headers =
      with_type body (set_if "X-CSRF-Token" token (("Accept", codes "application/json") ∷ []));
  body = body;
}

unfoldable pub auth_request : Option Text → AuthCall → Request
unfolding typed raw get_json send_json get_field set_field redirecting_post encode_uri_component
auth_request token auth_config = typed token get "/auth/config" [] [] [] empty
auth_request token auth_session = typed token get "/session" [] [] [] empty
auth_request token (auth_login body) =
    typed token post "/auth/login" [] [] [] (json (json_object body))
auth_request token (auth_signup body) =
    typed token post "/auth/signup" [] [] [] (json (json_object body))
auth_request token auth_logout =
    typed token post "/auth/logout" [] [] (("X-CSRF-Token", some (if_missing token [])) ∷ []) empty
auth_request token (auth_change_password body) =
    typed token post "/auth/change-password" [] []
      (("X-CSRF-Token", some (if_missing token [])) ∷ []) (json (json_object body))
auth_request token (auth_link_oidc password) = redirecting_post token (codes "/auth/oidc/link") [] (
    json (
      json_object (
        field "currentPassword" (json_text password)
          (field "next" (json_text (codes "/settings/security")) no_fields))))
auth_request token (auth_unlink_oidc password) =
    send_json token (codes "/auth/oidc/link") delete
      (json (json_object (field "currentPassword" (json_text password) no_fields))) none
auth_request token (auth_reauthenticate_oidc next) =
    redirecting_post token (codes "/auth/oidc/reauth")
      (("next", encoded (if_missing next (codes "/settings/security"))) ∷ []) empty
auth_request token (auth_enable_local_credential body) =
    send_json token (codes "/auth/local-credential") post (json (json_object body)) none
auth_request token auth_remove_local_credential =
    send_json token (codes "/auth/local-credential") delete empty none

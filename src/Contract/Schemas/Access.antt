-- ===== src/Contract/Schemas/Access.antt =====
-- web/src/api/schema.ts: the schemas for problems, keys, connected apps and sessions.
use wealthboard.Contract.{
  Shape, text, number, null, constant, list_of, one_of, object, required, optional, nil, ◌&◌,
}

abbrev pub problem : Shape
problem = object (
    required "type" text
    & required "title" text
    & required "status" number
    & required "detail" text
    & nil)

abbrev pub api_key_scope : Shape
api_key_scope = one_of (constant "portfolio:read") (
    one_of (constant "portfolio:write")
      (one_of (constant "imports:write") (constant "exports:read")))

abbrev pub oauth_data_level : Shape
oauth_data_level = one_of (constant "detailed") (constant "summary")

abbrev pub oauth_consent_request : Shape
oauth_consent_request = object (
    required "id" text
    & required "clientName" text
    & optional "clientUri" text
    & required "redirectHost" text
    & required "scopes" (list_of text)
    & required "expiresAt" text
    & nil)

abbrev pub oauth_redirect : Shape
oauth_redirect = object (required "redirectTo" text & nil)

abbrev pub connected_app_tool_call : Shape
connected_app_tool_call = object (
    required "tool" text
    & required "outcome" (one_of (constant "success") (constant "error"))
    & required "at" text
    & nil)

abbrev pub connected_app : Shape
connected_app = object (
    required "id" text
    & required "clientName" text
    & optional "clientUri" text
    & required "redirectHost" text
    & required "scopes" (list_of text)
    & required "dataLevel" oauth_data_level
    & required "createdAt" text
    & required "lastUsedAt" (one_of text null)
    & required "recentCalls" (list_of connected_app_tool_call)
    & nil)

abbrev pub api_key_metadata : Shape
api_key_metadata = object (
    required "id" text
    & required "name" text
    & required "prefix" text
    & required "scopes" (list_of api_key_scope)
    & required "createdAt" text
    & optional "expiresAt" (one_of text null)
    & optional "lastUsedAt" (one_of text null)
    & optional "revokedAt" (one_of text null)
    & nil)

abbrev pub create_api_key_request : Shape
create_api_key_request = object (
    required "name" text
    & required "scopes" (list_of api_key_scope)
    & optional "expiresAt" (one_of text null)
    & nil)

abbrev pub login_request : Shape
login_request = object (required "username" text & required "password" text & nil)

abbrev pub signup_request : Shape
signup_request = object (
    required "username" text
    & required "displayName" text
    & required "baseCurrency" text
    & required "password" text
    & required "confirmPassword" text
    & nil)

abbrev pub session_response : Shape
session_response = object (
    required "user" (object (required "id" text & required "username" text & nil))
    & required "csrfToken" text
    & nil)

abbrev pub change_password_request : Shape
change_password_request = object (
    required "currentPassword" text
    & required "newPassword" text
    & required "confirmPassword" text
    & nil)

abbrev pub password_confirmation_request : Shape
password_confirmation_request = object (required "currentPassword" text & nil)

abbrev pub oidc_redirect_response : Shape
oidc_redirect_response = object (required "redirectUrl" text & nil)

abbrev pub oidc_link_request : Shape
oidc_link_request = object (required "currentPassword" text & required "next" text & nil)

abbrev pub enable_local_credential_request : Shape
enable_local_credential_request =
    object
      (required "username" text & required "password" text & required "confirmPassword" text & nil)

-- ===== src/Contract/Operations/Access.antt =====
-- web/src/api/schema.ts: the operations on keys, consents and connected apps.
use wealthboard.Base.{[], ◌∷◌}
use wealthboard.Contract.{
  Operation, text, number, boolean, list_of, all_of, object, required, optional, nil, ◌&◌,
}
use wealthboard.Contract.Schemas.Access.{
  api_key_metadata, connected_app, create_api_key_request, oauth_consent_request, oauth_data_level,
  oauth_redirect,
}
use wealthboard.Contract.Shared.{csrf_token, problem_answer}

abbrev pub list_api_keys : Operation
list_api_keys = record {
  name = "listApiKeys";
  query = nil;
  header = nil;
  path = nil;
  body = nil;
  answers =
      (record {
        status = 200;
        headers = nil;
        content =
            (required "application/json" (object (required "keys" (list_of api_key_metadata) & nil))
              & nil);
      })
      ∷ problem_answer 401
      ∷ [];
}

abbrev pub create_api_key : Operation
create_api_key = record {
  name = "createApiKey";
  query = nil;
  header = (required "X-CSRF-Token" csrf_token & nil);
  path = nil;
  body = (required "application/json" create_api_key_request & nil);
  answers =
      (record {
        status = 201;
        headers = nil;
        content =
            (required "application/json"
                (all_of api_key_metadata (object (required "token" text & nil)))
              & nil);
      })
      ∷ problem_answer 401
      ∷ problem_answer 422
      ∷ [];
}

abbrev pub revoke_api_key : Operation
revoke_api_key = record {
  name = "revokeApiKey";
  query = nil;
  header = (required "X-CSRF-Token" csrf_token & nil);
  path = (required "id" text & nil);
  body = nil;
  answers = (record { status = 204; headers = nil; content = nil }) ∷ problem_answer 404 ∷ [];
}

abbrev pub revoke_all_api_keys : Operation
revoke_all_api_keys = record {
  name = "revokeAllApiKeys";
  query = nil;
  header = (required "X-CSRF-Token" csrf_token & nil);
  path = nil;
  body = nil;
  answers =
      (record {
        status = 200;
        headers = nil;
        content = (required "application/json" (object (required "revoked" number & nil)) & nil);
      })
      ∷ problem_answer 401
      ∷ [];
}

abbrev pub get_oauth_consent_request : Operation
get_oauth_consent_request = record {
  name = "getOAuthConsentRequest";
  query = nil;
  header = nil;
  path = (required "id" text & nil);
  body = nil;
  answers =
      (record {
        status = 200;
        headers = nil;
        content = (required "application/json" oauth_consent_request & nil);
      })
      ∷ problem_answer 401
      ∷ problem_answer 404
      ∷ [];
}

abbrev pub approve_oauth_consent_request : Operation
approve_oauth_consent_request = record {
  name = "approveOAuthConsentRequest";
  query = nil;
  header = (required "X-CSRF-Token" csrf_token & nil);
  path = (required "id" text & nil);
  body =
      (required "application/json"
          (object (required "dataLevel" oauth_data_level & optional "allowChanges" boolean & nil))
        & nil);
  answers =
      (record {
        status = 200;
        headers = nil;
        content = (required "application/json" oauth_redirect & nil);
      })
      ∷ problem_answer 401
      ∷ problem_answer 404
      ∷ problem_answer 422
      ∷ [];
}

abbrev pub deny_oauth_consent_request : Operation
deny_oauth_consent_request = record {
  name = "denyOAuthConsentRequest";
  query = nil;
  header = (required "X-CSRF-Token" csrf_token & nil);
  path = (required "id" text & nil);
  body = nil;
  answers =
      (record {
        status = 200;
        headers = nil;
        content = (required "application/json" oauth_redirect & nil);
      })
      ∷ problem_answer 401
      ∷ problem_answer 404
      ∷ [];
}

abbrev pub list_connected_apps : Operation
list_connected_apps = record {
  name = "listConnectedApps";
  query = nil;
  header = nil;
  path = nil;
  body = nil;
  answers =
      (record {
        status = 200;
        headers = nil;
        content =
            (required "application/json" (object (required "apps" (list_of connected_app) & nil))
              & nil);
      })
      ∷ problem_answer 401
      ∷ [];
}

abbrev pub revoke_connected_app : Operation
revoke_connected_app = record {
  name = "revokeConnectedApp";
  query = nil;
  header = (required "X-CSRF-Token" csrf_token & nil);
  path = (required "id" text & nil);
  body = nil;
  answers =
      (record { status = 204; headers = nil; content = nil })
      ∷ problem_answer 401
      ∷ problem_answer 404
      ∷ [];
}

abbrev pub clear_connected_app_calls : Operation
clear_connected_app_calls = record {
  name = "clearConnectedAppCalls";
  query = nil;
  header = (required "X-CSRF-Token" csrf_token & nil);
  path = (required "id" text & nil);
  body = nil;
  answers =
      (record { status = 204; headers = nil; content = nil })
      ∷ problem_answer 401
      ∷ problem_answer 404
      ∷ [];
}

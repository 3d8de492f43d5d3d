-- ===== src/Contract/Operations/Sessions.antt =====
-- web/src/api/schema.ts: the operations on sign-in and sessions.
use wealthboard.Base.{[], ◌∷◌}
use wealthboard.Contract.{
  Operation, text, constant, list_of, one_of, object, required, optional, nil, ◌&◌,
}
use wealthboard.Contract.Schemas.Access.{
  api_key_scope, change_password_request, enable_local_credential_request, login_request,
  oidc_link_request, oidc_redirect_response, password_confirmation_request, session_response,
  signup_request,
}
use wealthboard.Contract.Shared.{csrf_token, problem_answer}

abbrev pub signup : Operation
signup = record {
  name = "signup";
  query = nil;
  header = nil;
  path = nil;
  body = (required "application/json" signup_request & nil);
  answers =
      (record {
        status = 200;
        headers = nil;
        content = (required "application/json" session_response & nil);
      })
      ∷ problem_answer 409
      ∷ problem_answer 422
      ∷ problem_answer 429
      ∷ [];
}

abbrev pub login : Operation
login = record {
  name = "login";
  query = nil;
  header = nil;
  path = nil;
  body = (required "application/json" login_request & nil);
  answers =
      (record {
        status = 200;
        headers = nil;
        content = (required "application/json" session_response & nil);
      })
      ∷ problem_answer 401
      ∷ problem_answer 422
      ∷ problem_answer 429
      ∷ [];
}

abbrev pub start_oidc_login : Operation
start_oidc_login = record {
  name = "startOidcLogin";
  query = (optional "next" text & nil);
  header = nil;
  path = nil;
  body = nil;
  answers =
      (record { status = 303; headers = (optional "Location" text & nil); content = nil })
      ∷ problem_answer 404
      ∷ [];
}

abbrev pub complete_oidc_authentication : Operation
complete_oidc_authentication = record {
  name = "completeOidcAuthentication";
  query = (required "state" text & optional "code" text & optional "error" text & nil);
  header = nil;
  path = nil;
  body = nil;
  answers =
      (record { status = 200; headers = nil; content = (required "text/html" text & nil) })
      ∷ (record { status = 303; headers = nil; content = nil })
      ∷ problem_answer 404
      ∷ [];
}

abbrev pub start_oidc_link : Operation
start_oidc_link = record {
  name = "startOidcLink";
  query = nil;
  header = (required "X-CSRF-Token" csrf_token & nil);
  path = nil;
  body = (required "application/json" oidc_link_request & nil);
  answers =
      (record {
        status = 200;
        headers = nil;
        content = (required "application/json" oidc_redirect_response & nil);
      })
      ∷ (record { status = 303; headers = nil; content = nil })
      ∷ problem_answer 401
      ∷ problem_answer 404
      ∷ [];
}

abbrev pub unlink_oidc_identity : Operation
unlink_oidc_identity = record {
  name = "unlinkOidcIdentity";
  query = nil;
  header = (required "X-CSRF-Token" csrf_token & nil);
  path = nil;
  body = (required "application/json" password_confirmation_request & nil);
  answers =
      (record {
        status = 200;
        headers = nil;
        content = (required "application/json" session_response & nil);
      })
      ∷ problem_answer 401
      ∷ problem_answer 409
      ∷ [];
}

abbrev pub start_oidc_reauthentication : Operation
start_oidc_reauthentication = record {
  name = "startOidcReauthentication";
  query = (optional "next" text & nil);
  header = (required "X-CSRF-Token" csrf_token & nil);
  path = nil;
  body = nil;
  answers =
      (record {
        status = 200;
        headers = nil;
        content = (required "application/json" oidc_redirect_response & nil);
      })
      ∷ (record { status = 303; headers = nil; content = nil })
      ∷ problem_answer 401
      ∷ problem_answer 404
      ∷ [];
}

abbrev pub enable_local_credential : Operation
enable_local_credential = record {
  name = "enableLocalCredential";
  query = nil;
  header = (required "X-CSRF-Token" csrf_token & nil);
  path = nil;
  body = (required "application/json" enable_local_credential_request & nil);
  answers =
      (record {
        status = 200;
        headers = nil;
        content = (required "application/json" session_response & nil);
      })
      ∷ problem_answer 401
      ∷ problem_answer 409
      ∷ [];
}

abbrev pub remove_local_credential : Operation
remove_local_credential = record {
  name = "removeLocalCredential";
  query = nil;
  header = (required "X-CSRF-Token" csrf_token & nil);
  path = nil;
  body = nil;
  answers =
      (record {
        status = 200;
        headers = nil;
        content = (required "application/json" session_response & nil);
      })
      ∷ problem_answer 401
      ∷ problem_answer 409
      ∷ [];
}

abbrev pub logout : Operation
logout = record {
  name = "logout";
  query = nil;
  header = (required "X-CSRF-Token" csrf_token & nil);
  path = nil;
  body = nil;
  answers =
      (record {
        status = 200;
        headers = nil;
        content =
            (required "application/json" (object (required "status" (constant "signed_out") & nil))
              & nil);
      })
      ∷ problem_answer 401
      ∷ [];
}

abbrev pub change_password : Operation
change_password = record {
  name = "changePassword";
  query = nil;
  header = (required "X-CSRF-Token" csrf_token & nil);
  path = nil;
  body = (required "application/json" change_password_request & nil);
  answers =
      (record {
        status = 200;
        headers = nil;
        content = (required "application/json" session_response & nil);
      })
      ∷ problem_answer 401
      ∷ problem_answer 422
      ∷ [];
}

abbrev pub get_principal : Operation
get_principal = record {
  name = "getPrincipal";
  query = nil;
  header = nil;
  path = nil;
  body = nil;
  answers =
      (record {
        status = 200;
        headers = nil;
        content =
            (required "application/json" (
                object (
                  required "userId" text
                  & required "username" text
                  & required "authMethod" (one_of (constant "session") (constant "api_key"))
                  & required "scopes" (list_of api_key_scope)
                  & nil))
              & nil);
      })
      ∷ problem_answer 401
      ∷ [];
}

abbrev pub get_session : Operation
get_session = record {
  name = "getSession";
  query = nil;
  header = nil;
  path = nil;
  body = nil;
  answers =
      (record {
        status = 200;
        headers = nil;
        content = (required "application/json" session_response & nil);
      })
      ∷ problem_answer 401
      ∷ [];
}

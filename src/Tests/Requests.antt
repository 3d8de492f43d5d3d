-- ===== src/Tests/Requests.antt =====
-- Tests of the model of web/src/api/http/httpAdapter.ts: calls against a small network.
use wealthboard.Base.{[], ◌∷◌, false, Option, none, some, codes, ◌≡◌, refl, inl, same}
use wealthboard.Json.{Json, json_text, json_object, no_fields, field}
use wealthboard.Contract.{required, nil, ◌&◌}
use wealthboard.Contract.Schemas.Access.{session_response}
use wealthboard.Contract.Fits.{fits}
use wealthboard.Http.{Target, template, url, Request, Reply}
use wealthboard.Http.Problem.{problem, to_problem}
use wealthboard.Http.Transport.{rejected}
use wealthboard.Http.Calls.{
  auth_login, transactions_remove, estate_get, estate_remove_snapshot, auth, transactions, estate,
}
use wealthboard.Http.Requests.{request}
use wealthboard.Http.Routes.{Conforms}
use wealthboard.Http.Routes.Expected.{operation}
use wealthboard.Http.Routes.Whole.{request-Conforms}
use wealthboard.Http.Csrf.{Carries}
use wealthboard.Http.Csrf.Whole.{request-Carries}
use wealthboard.Http.Readings.Each.{reading}
use wealthboard.Http.Readings.Resolving.{Resolves, perform-Resolves}
use wealthboard.Http.Readings.Failing.{perform-Refuses}
use wealthboard.Http.Readings.Tokens.{IsGiven, run-IsGiven}
use wealthboard.Http.Readings.Answers.{type_of}
use wealthboard.Http.Readings.Perform.{is_sendable, perform, run}

abbrev session : Json
session = json_object (
    field "user"
      (json_object (
        field "id" (json_text (codes "u1")) (field "username" (json_text (codes "ada")) no_fields)))
      (field "csrfToken" (json_text (codes "t0")) no_fields))

abbrev signed_in : Reply
signed_in = record {
  status = 200;
  status_text = codes "OK";
  content = codes "{}";
  value = some session;
  redirected = false;
  address = [];
}

abbrev broken : Reply
broken = record {
  status = 503;
  status_text = [];
  content = [];
  value = none;
  redirected = false;
  address = [];
}

-- A network that signs in and is down for everything else.
abbrev answer_to : Target → Option Reply
answer_to (template t vs) = some signed_in
answer_to (url u) = some broken

abbrev network : Request → Option Reply
network q = answer_to q.target

request-Conforms_example :
    Conforms
      (request (some (codes "t0")) (estate (estate_remove_snapshot (codes "s1"))))
      (operation (estate (estate_remove_snapshot (codes "s1"))))
request-Conforms_example =
    request-Conforms 116 (codes "0") (estate (estate_remove_snapshot (codes "s1")))
      ((refl, refl), tt)

request-Carries_example :
    Carries
      (codes "t0")
      (request (some (codes "t0")) (transactions (transactions_remove (codes "x"))))
request-Carries_example =
    request-Carries 116 (codes "0") (transactions (transactions_remove (codes "x")))

perform-Refuses_example :
    perform network (some (codes "t0")) (estate estate_get)
    ≡ (some (codes "t0"), rejected (problem (to_problem broken none)))
unfolding request is_sendable to_problem
perform-Refuses_example =
    perform-Refuses network (some (codes "t0")) (estate estate_get) (to_problem broken none) refl
      (refl, refl) refl

run-IsGiven_example :
    IsGiven network (run network none (auth (auth_login no_fields) ∷ estate estate_get ∷ []))
run-IsGiven_example =
    run-IsGiven network none (auth (auth_login no_fields) ∷ estate estate_get ∷ []) (inl refl)

perform-Resolves_example :
    Resolves
      (reading (auth (auth_login no_fields)))
      none
      (perform network none (auth (auth_login no_fields)))
unfolding request fits is_sendable type_of same
perform-Resolves_example =
    perform-Resolves network none (auth (auth_login no_fields)) signed_in refl refl (
      record {
        status = 200;
        headers = nil;
        content = required "application/json" session_response & nil;
      },
      inl refl,
      refl,
      refl,
      (session, 123, codes "}", refl, refl, refl),
    )

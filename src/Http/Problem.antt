-- ===== src/Http/Problem.antt =====
-- web/src/api/problem.ts, with `toProblem` and `networkProblem` of httpAdapter.ts.
use wealthboard.Base.{
  ℕ, [], ◌∷◌, ◌++◌, Bool, false, Option, none, some, Text, codes, to_string, ◌==◌, if◌then◌else◌,
}
use wealthboard.Json.{Json, Fields, json_text, json_number, json_object, get_field, as_text}
use wealthboard.Http.{Reply}

pub record ApiProblem : Type 0 where
  pub kind : Text
  pub title : Text
  pub status : ℕ
  pub detail : Text

-- What a call can throw: an `ApiProblem`, or an error of the language from reading an answer.
pub data Failure : Type 0 where
  problem : ApiProblem → Failure
  bad_syntax : Failure
  bad_type : Failure
  bad_uri : Failure

-- `a || b`
abbrev pub or_text : Text → Text → Text
or_text [] b = b
or_text (c ∷ s) b = c ∷ s

-- `a ?? b`
abbrev pub if_missing : Option Text → Text → Text
if_missing none b = b
if_missing (some a) b = a

-- `isProblemShape(body)`, and the problem that a body of that shape describes.
abbrev shaped : Option Json → Option Json → Fields → Option ApiProblem
shaped (some (json_text t)) (some (json_number n)) fs = some (record {
  kind = if_missing (as_text (get_field "type" fs)) (codes "about:blank");
  title = t;
  status = n;
  detail = if_missing (as_text (get_field "detail" fs)) [];
})
shaped _ _ fs = none

unfoldable pub body_problem : Option Json → Option ApiProblem
unfolding get_field
body_problem (some (json_object fs)) = shaped (get_field "title" fs) (get_field "status" fs) fs
body_problem _ = none

-- The problem of a response whose body describes none.
abbrev pub status_problem : Reply → ApiProblem
status_problem r = record {
  kind = codes "about:blank";
  title = or_text r.status_text (codes "Request failed");
  status = r.status;
  detail =
      if r.status == 0
      then codes "The server could not be reached."
      else codes "The server responded with " ++ to_string r.status ++ codes ".";
}

abbrev or_status : Option ApiProblem → Reply → ApiProblem
or_status (some p) r = p
or_status none r = status_problem r

unfoldable pub to_problem : Reply → Option Json → ApiProblem
unfolding body_problem
to_problem r body = or_status (body_problem body) r

abbrev pub network_problem : ApiProblem
network_problem = record {
  kind = codes "about:blank";
  title = codes "Offline";
  status = 0;
  detail = codes "The server could not be reached. Check your connection.";
}

-- `problemMessage`, where an error of the language has its message.
unfoldable pub problem_message : (Failure → Text) → Failure → Text
problem_message message (problem p) = or_text p.detail p.title
problem_message message bad_syntax = message bad_syntax
problem_message message bad_type = message bad_type
problem_message message bad_uri = message bad_uri

unfoldable pub is_unauthorized : Failure → Bool
is_unauthorized (problem p) = p.status == 401
is_unauthorized bad_syntax = false
is_unauthorized bad_type = false
is_unauthorized bad_uri = false

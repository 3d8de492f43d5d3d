-- ===== src/Http/Readings.antt =====
-- web/src/api/http/httpAdapter.ts: what a call makes of the reply to its request, and of the CSRF token
-- that the adapter holds. A handler is its request and its way of reading.
pub mod Each
pub mod Perform
pub mod Failing
pub mod Tokens
pub mod Answers
pub mod Suits
pub mod Bodies
pub mod Resolving
use Prim.Native.String.{String}
use wealthboard.Base.{
  [], ◌∷◌, ◌++◌, Bool, true, false, Option, none, some, Text, codes, to_string, if◌then◌else◌, ◌==◌,
}
use wealthboard.Json.{
  Json, is_null, json_text, json_object, Fields, get_field, member_of, text_member,
}
use wealthboard.Http.{Reply, is_ok}
use wealthboard.Http.Problem.{
  Failure, problem, bad_type, to_problem, network_problem, is_unauthorized, ApiProblem,
}
use wealthboard.Http.Transport.{
  Settled, resolved, rejected, ◌>>=◌, unwrap, read_json, read_sent, read_data,
}

-- What a call resolves to: the data of a reply, a text, nothing, or nothing after the browser was sent
-- to an address.
pub data Value : Type 0 where
  data_of : Option Json → Value
  text_of : Text → Value
  nothing : Value
  moved : Text → Value

-- The ways of reading, by what the handlers do after the request:
-- `whole` is `unwrap(…)`, `member_of_data k` is `(await unwrap(…)).k`, `ignored` is `await unwrap(…)`,
-- `json_body` is `getJson` or `response.json()`, `member_of_json k` is `(await getJson(…)).k`, `sent` is
-- `sendJson`, `as_content` is `response.text()`; the others are those of `auth`.
pub data Reading : Type 0 where
  whole ignored json_body sent as_content : Reading
  member_of_data member_of_json : String → Reading
  starts_session changes_session sends_session ends_session finds_session follows_redirect : Reading

-- `v.k`, which throws when `v` is `undefined` or `null`.
unfoldable pub member_value : String → Option Json → Settled (Option Json)
unfolding member_of
member_value k none = rejected bad_type
member_value k (some v) = if is_null v then rejected bad_type else resolved (member_of k v)

-- The token of `setCsrfToken(session.csrfToken)`. A token is a text, as the contract says of the member;
-- one that is not is taken for none.
unfoldable pub session_token : Option Json → Settled (Option Text)
unfolding text_member
session_token none = rejected bad_type
session_token (some v) =
    if is_null v then rejected bad_type else resolved (text_member "csrfToken" v)

-- A reading that leaves the token, and one that stores the token of a session.
abbrev keeping : Option Text → Settled Value → Option Text × Settled Value
keeping token v = (token, v)

abbrev pub stored : Option Text → Value → Settled (Option Text) → Option Text × Settled Value
stored token v (rejected f) = (token, rejected f)
stored token v (resolved t) = (t, resolved v)

abbrev pub storing :
    Option Text → (Option Json → Value) → Settled (Option Json) → Option Text × Settled Value
storing token k (rejected f) = (token, rejected f)
storing token k (resolved v) = stored token (k v) (session_token v)

-- `session()`: a 401 is nobody, and clears the token.
abbrev pub finding : Option Text → Option Text × Settled Value → Option Text × Settled Value
finding token (t, resolved v) = (t, resolved v)
finding token (t, rejected f) =
    if is_unauthorized f then (none, resolved (data_of none)) else (t, rejected f)

abbrev pub clearing : Option Text → Settled (Option Json) → Option Text × Settled Value
clearing token (rejected f) = (token, rejected f)
clearing token (resolved v) = (none, resolved nothing)

-- The end of `redirectingPost`.
abbrev pub no_provider : Reply → ApiProblem
no_provider r = record {
  kind = codes "about:blank";
  title = codes "Sign-in provider unavailable";
  status = r.status;
  detail = codes "The sign-in provider could not be reached. Try again in a moment.";
}

abbrev moved_by : Reply → Option Text → Settled Value
moved_by r (some u) = resolved (moved u)
moved_by r none =
    if r.redirected then resolved (moved r.address) else rejected (problem (no_provider r))

abbrev redirect_url : Option Json → Option Text
redirect_url none = none
redirect_url (some v) = text_member "redirectUrl" v

unfoldable pub settle : Reading → Option Text → Option Reply → Option Text × Settled Value
unfolding unwrap read_sent read_data member_value session_token text_member
settle whole token r = keeping token (unwrap r >>= λ a. read_data a >>= λ v. resolved (data_of v))
settle ignored token r = keeping token (unwrap r >>= λ a. read_data a >>= λ v. resolved nothing)
settle json_body token r =
    keeping token (unwrap r >>= λ a. read_json a >>= λ v. resolved (data_of v))
settle sent token r = keeping token (unwrap r >>= λ a. read_sent a >>= λ v. resolved (data_of v))
settle as_content token r = keeping token (unwrap r >>= λ a. resolved (text_of a.content))
settle (member_of_data k) token r =
    keeping token
      (unwrap r >>= λ a. read_data a >>= λ w. member_value k w >>= λ v. resolved (data_of v))
settle (member_of_json k) token r =
    keeping token
      (unwrap r >>= λ a. read_json a >>= λ w. member_value k w >>= λ v. resolved (data_of v))
settle starts_session token r = storing token data_of (unwrap r >>= λ a. read_data a)
settle changes_session token r = storing token (λ v. nothing) (unwrap r >>= λ a. read_data a)
settle sends_session token r = storing token data_of (unwrap r >>= λ a. read_sent a)
settle ends_session token r = clearing token (unwrap r >>= λ a. read_data a)
settle finds_session token r = finding token (storing token data_of (unwrap r >>= λ a. read_data a))
settle follows_redirect token r =
    keeping token (unwrap r >>= λ a. moved_by a (redirect_url a.value))

-- ===== src/Http/Readings/Failing.antt =====
-- web/src/api/http/httpAdapter.ts: calls whose request does not reach the server or is refused by it.
use wealthboard.Base.{true, false, Option, none, some, Text, ◌≡◌, refl, ◌==◌}
use wealthboard.Http.{Request, Reply, is_ok}
use wealthboard.Http.Problem.{
  ApiProblem, Failure, problem, to_problem, network_problem, is_unauthorized,
}
use wealthboard.Http.Transport.{rejected, unwrap}
use wealthboard.Http.Calls.{Call}
use wealthboard.Http.Requests.{request}
use wealthboard.Http.Readings.{
  Reading, settle, whole, ignored, json_body, sent, as_content, member_of_data, member_of_json,
  starts_session, changes_session, sends_session, ends_session, finds_session, follows_redirect,
}
use wealthboard.Http.Readings.Each.{reading}
use wealthboard.Http.Readings.Perform.{perform, is_sendable}

-- What comes back is no success: there is no reply, or one whose status is not in the 200s. The problem
-- is then the network's, or what the reply says of itself.
abbrev pub Refuses : Option Reply → ApiProblem → Type 0
Refuses none p = p ≡ network_problem
Refuses (some r) p = (is_ok r ≡ false) × (p ≡ to_problem r r.value)

unwrap-Refuses : (r : Option Reply) (p : ApiProblem) → Refuses r p → unwrap r ≡ rejected (problem p)
unfolding unwrap
unwrap-Refuses none p h = rw h refl
unwrap-Refuses (some r) p (n, e) = rw (n, e) refl

settle-rejected :
    (d : Reading) (token : Option Text) (r : Option Reply) (f : Failure)
    → unwrap r ≡ rejected f
    → is_unauthorized f ≡ false
    → settle d token r ≡ (token, rejected f)
unfolding settle
settle-rejected whole token r f h n = rw h refl
settle-rejected ignored token r f h n = rw h refl
settle-rejected json_body token r f h n = rw h refl
settle-rejected sent token r f h n = rw h refl
settle-rejected as_content token r f h n = rw h refl
settle-rejected (member_of_data k) token r f h n = rw h refl
settle-rejected (member_of_json k) token r f h n = rw h refl
settle-rejected starts_session token r f h n = rw h refl
settle-rejected changes_session token r f h n = rw h refl
settle-rejected sends_session token r f h n = rw h refl
settle-rejected ends_session token r f h n = rw h refl
settle-rejected finds_session token r f h n = rw (h, n) refl
settle-rejected follows_redirect token r f h n = rw h refl

-- When a call can be sent and its request fails, without a reply or with a status outside the 200s, for a problem whose status is not 401, the call throws that problem and leaves the token.
pub perform-Refuses :
    (fetch : Request → Option Reply) (token : Option Text) (x : Call) (p : ApiProblem)
    → is_sendable x ≡ true
    → Refuses (fetch (request token x)) p
    → (p.status == 401) ≡ false
    → perform fetch token x ≡ (token, rejected (problem p))
unfolding perform is_unauthorized
perform-Refuses fetch token x p s h n = rw s (
    settle-rejected (reading x) token (fetch (request token x)) (problem p)
      (unwrap-Refuses (fetch (request token x)) p h) n)

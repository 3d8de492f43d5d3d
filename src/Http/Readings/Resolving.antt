-- ===== src/Http/Readings/Resolving.antt =====
-- web/src/api/http/httpAdapter.ts: calls that the server answers as web/src/api/schema.ts says.
use wealthboard.Base.{
  ℕ, List, [], ◌∷◌, Bool, true, false, ◌||◌, not, ◌&&◌, Option, none, some, Text, ◌≡◌, refl, sym,
  ◌==◌, arith, Member, Option, inl, inr,
}
use wealthboard.Json.{Json, json_object, json_text, get_field, Fields}
use wealthboard.Contract.{Shape, Answer}
use wealthboard.Http.{Request, Reply, is_ok}
use wealthboard.Http.Transport.{Settled, resolved, unwrap, read_sent, read_data}
use wealthboard.Http.Calls.{Call}
use wealthboard.Http.Requests.{request}
use wealthboard.Http.Readings.Suits.{suits_all-reading}
use wealthboard.Http.Routes.Expected.{operation}
use wealthboard.Http.Readings.Each.{reading}
use wealthboard.Http.Readings.{
  Value, Reading, whole, ignored, json_body, sent, as_content, member_of_data, member_of_json,
  starts_session, changes_session, sends_session, ends_session, finds_session, follows_redirect,
  settle,
}
use wealthboard.Http.Readings.Answers.{
  type_of, Bodied, has_text, is_object_type, is_json, suits, is_success, suits_all, Answers,
}
use wealthboard.Http.Readings.Perform.{is_sendable, perform}
use wealthboard.Http.Readings.Bodies.{
  both, either, object-text, member-object, json-value, has_text-is_json, is_object_type-is_json,
}

-- The token after a success: that of a session, none after signing out, and else what it was.
abbrev pub TokenAfter : Reading → Option Text → Option Text → Type 0
TokenAfter starts_session token t = (s : Text) × (t ≡ some s)
TokenAfter changes_session token t = (s : Text) × (t ≡ some s)
TokenAfter sends_session token t = (s : Text) × (t ≡ some s)
TokenAfter finds_session token t = (s : Text) × (t ≡ some s)
TokenAfter ends_session token t = t ≡ none
TokenAfter _ token t = t ≡ token

abbrev pub Resolves : Reading → Option Text → Option Text × Settled Value → Type 0
Resolves d token s = (w : Value) × (s.1 ≡ resolved w) × TokenAfter d token s.0

unwrap-is_ok : (r : Reply) → is_ok r ≡ true → unwrap (some r) ≡ resolved r
unfolding unwrap
unwrap-is_ok r o = rw o refl

sent-Resolves :
    (token : Option Text) (r : Reply) (a : Option Shape) (b : Bool)
    → (r.status == 204) ≡ b
    → (b || is_json a) ≡ true
    → Bodied a r
    → (v : Option Json) × (read_sent r ≡ resolved v)
unfolding read_sent
sent-Resolves token r a true n h b = (none, rw n refl)
sent-Resolves token r a false n h b =
    let (v, c, s, e, g) = json-value a r h b in (some v, rw (n, g, e) refl)

data-Resolves :
    (r : Reply) (a : Option Shape) (b : Bool)
    → (r.status == 204) ≡ b
    → (b || is_json a) ≡ true
    → Bodied a r
    → (v : Option Json) × (read_data r ≡ resolved v)
unfolding read_data
data-Resolves r a true n h b = (none, rw n refl)
data-Resolves r a false n h b =
    let (v, c, s, e, g) = json-value a r h b in (some v, rw (n, g, e) refl)

-- The body that the typed client reads of a status other than 204.
read_data-json :
    (a : Option Shape) (r : Reply) (v : Json)
    → (r.status == 204) ≡ false
    → is_json a ≡ true
    → Bodied a r
    → r.value ≡ some v
    → read_data r ≡ resolved (some v)
unfolding read_data
read_data-json a r v n h b e = let (w, c, s, f, g) = json-value a r h b in rw (n, g, e) refl

-- A session that the typed client reads.
read_data-session :
    (a : Option Shape) (r : Reply)
    → (not (r.status == 204) && has_text "csrfToken" a) ≡ true
    → Bodied a r
    → (fs : Fields) × (t : Text) × (read_data r ≡ resolved (some (json_object fs)))
      × (get_field "csrfToken" fs ≡ some (json_text t))
read_data-session a r h b =
    let (n, m) = both (not (r.status == 204)) (has_text "csrfToken" a) h in
    let (fs, t, e, q) = object-text "csrfToken" a r m b in
    (
      fs,
      t,
      read_data-json a r (json_object fs) (ground arith) (has_text-is_json "csrfToken" a m) b e,
      q,
    )

read_sent-value :
    (r : Reply) (c : ℕ) (s : Text) (fs : Fields)
    → (r.status == 204) ≡ false
    → r.value ≡ some (json_object fs)
    → r.content ≡ c ∷ s
    → read_sent r ≡ resolved (some (json_object fs))
unfolding read_sent
read_sent-value r c s fs n e g = rw (n, g, e) refl

settle-Resolves :
    (d : Reading) (token : Option Text) (r : Reply) (a : Option Shape)
    → is_ok r ≡ true
    → suits d r.status a ≡ true
    → Bodied a r
    → Resolves d token (settle d token (some r))
unfolding settle suits
settle-Resolves whole token r a o h b =
    let (v, e) = data-Resolves r a (r.status == 204) refl h b in
    rw (unwrap-is_ok r o, e) (_, refl, refl)
settle-Resolves ignored token r a o h b =
    let (v, e) = data-Resolves r a (r.status == 204) refl h b in
    rw (unwrap-is_ok r o, e) (_, refl, refl)
settle-Resolves json_body token r a o h b =
    let (v, c, s, e, g) = json-value a r h b in rw (unwrap-is_ok r o, e) (_, refl, refl)
settle-Resolves sent token r a o h b =
    let (v, e) = sent-Resolves token r a (r.status == 204) refl h b in
    rw (unwrap-is_ok r o, e) (_, refl, refl)
settle-Resolves as_content token r a o h b = rw (unwrap-is_ok r o) (_, refl, refl)
settle-Resolves (member_of_data k) token r a o h b =
    let (n, m) = both (not (r.status == 204)) (is_object_type a) h in
    let (w, v, e, f) = member-object k a r m b in
    let d = read_data-json a r v (ground arith) (is_object_type-is_json a m) b e in
    rw (unwrap-is_ok r o, d, f) (_, refl, refl)
settle-Resolves (member_of_json k) token r a o h b =
    let (w, v, e, f) = member-object k a r h b in rw (unwrap-is_ok r o, e, f) (_, refl, refl)
settle-Resolves starts_session token r a o h b =
    let (fs, t, e, q) = read_data-session a r h b in
    rw (unwrap-is_ok r o, e, q) (_, refl, (t, refl))
settle-Resolves changes_session token r a o h b =
    let (fs, t, e, q) = read_data-session a r h b in
    rw (unwrap-is_ok r o, e, q) (_, refl, (t, refl))
settle-Resolves sends_session token r a o h b =
    let (n, m) = both (not (r.status == 204)) (has_text "csrfToken" a) h in
    let (fs, t, e, q) = object-text "csrfToken" a r m b in
    let (v, c, s, f, g) = json-value a r (has_text-is_json "csrfToken" a m) b in
    rw (unwrap-is_ok r o, read_sent-value r c s fs (ground arith) e g, q) (_, refl, (t, refl))
settle-Resolves ends_session token r a o h b =
    let (v, e) = data-Resolves r a (r.status == 204) refl h b in
    rw (unwrap-is_ok r o, e) (_, refl, refl)
settle-Resolves finds_session token r a o h b =
    let (fs, t, e, q) = read_data-session a r h b in
    rw (unwrap-is_ok r o, e, q) (_, refl, (t, refl))
settle-Resolves follows_redirect token r a o h b =
    let (fs, t, e, q) = object-text "redirectUrl" a r h b in
    rw (unwrap-is_ok r o, e, q) (_, refl, refl)

suits_all-member :
    (d : Reading) (a : Answer) (answers : List Answer)
    → Member a answers
    → suits_all d answers ≡ true
    → is_success a.status ≡ true
    → suits d a.status (type_of "application/json" a.content) ≡ true
unfolding suits_all
suits_all-member d a [] m h s = elim m [ ]
suits_all-member d a (x ∷ answers) (inl e) h s =
    let (p, q) = both _ _ h in ground (arith, either (not (is_success x.status)) _ p, e)
suits_all-member d a (x ∷ answers) (inr m) h s = suits_all-member d a answers m (both _ _ h).1 s

-- When a call can be sent and the reply to its request is one of the answers that the contract declares for its operation, with a status in the 200s and, where the answer is JSON, a body that fits its type, the call resolves; a call that starts or changes a session leaves the session's token, signing out leaves none, and every other call leaves the token that was there.
pub perform-Resolves :
    (fetch : Request → Option Reply) (token : Option Text) (x : Call) (r : Reply)
    → is_sendable x ≡ true
    → fetch (request token x) ≡ some r
    → Answers (operation x).answers r
    → Resolves (reading x) token (perform fetch token x)
unfolding perform
perform-Resolves fetch token x r s f (a, m, e, o, b) =
    let success : is_success a.status ≡ true = rw e o in
    let suited =
      suits_all-member (reading x) a (operation x).answers m (suits_all-reading x) success in
    let u : suits (reading x) r.status (type_of "application/json" a.content) ≡ true =
      rw (sym e) suited in
    rw (s, f) (settle-Resolves (reading x) token r (type_of "application/json" a.content) o u b)

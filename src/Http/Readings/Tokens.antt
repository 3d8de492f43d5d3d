-- ===== src/Http/Readings/Tokens.antt =====
-- web/src/api/http/httpAdapter.ts: where the CSRF token that the adapter holds comes from.
use wealthboard.Base.{
  List, [], ◌∷◌, Bool, true, false, Option, none, some, Text, ◌≡◌, refl, if◌then◌else◌, ◌⊎◌, inl,
  inr, arith,
}
use wealthboard.Http.{Request, Reply, is_ok}
use wealthboard.Http.Calls.{Call}
use wealthboard.Http.Requests.{request}
use wealthboard.Http.Readings.Each.{reading}
use wealthboard.Http.Readings.Perform.{perform, run, is_sendable}
use wealthboard.Http.Readings.{
  Value, data_of, Reading, whole, ignored, json_body, sent, as_content, member_of_data,
  member_of_json, starts_session, changes_session, sends_session, ends_session, finds_session,
  follows_redirect, session_token, stored, storing, finding, clearing, settle,
}
use wealthboard.Http.Transport.{
  Settled, resolved, rejected, ◌>>=◌, unwrap, parse, read_sent, read_data, >>=-eq-resolved,
  resolved-injective,
}
use wealthboard.Json.{Json, is_null, text_member}
use wealthboard.Http.Problem.{
  Failure, problem, network_problem, bad_syntax, bad_type, bad_uri, is_unauthorized,
}

-- A reply of a success gives the token in the member of its value.
abbrev pub Gives : Option Reply → Option Text → Type 0
Gives r t =
    (a : Reply) × (v : Json) × (r ≡ some a)
    × (is_ok a ≡ true)
    × (a.value ≡ some v)
    × (t ≡ text_member "csrfToken" v)

unwrap-resolved :
    (r : Option Reply) (a : Reply) → unwrap r ≡ resolved a → (r ≡ some a) × (is_ok a ≡ true)
unfolding unwrap
unwrap-resolved none a h = ground arith
unwrap-resolved (some b) a h = ground arith

-- A token that was there before, or none, or one that the reply gives.
abbrev Follows : Option Text → Option Reply → Option Text → Type 0
Follows token r t = (t ≡ token) ⊎ ((t ≡ none) ⊎ Gives r t)

-- What a reading of a session works on is the value of a reply that is ok.
abbrev IsValueOf : Option Reply → Settled (Option Json) → Type 0
IsValueOf r s =
    (v : Json)
    → s ≡ resolved (some v)
    → (a : Reply) × (r ≡ some a) × (is_ok a ≡ true) × (a.value ≡ some v)

stored-Follows :
    (token : Option Text) (r : Option Reply) (k : Value) (b : Bool) (v : Json)
    → IsValueOf r (resolved (some v))
    → Follows token r
        (stored token k (if b then rejected bad_type else resolved (text_member "csrfToken" v))).0
stored-Follows token r k true v h = inl refl
stored-Follows token r k false v h = let (a, e, o, w) = h v refl in inr (inr (a, v, e, o, w, refl))

session-Follows :
    (token : Option Text) (r : Option Reply) (k : Value) (w : Option Json)
    → IsValueOf r (resolved w)
    → Follows token r (stored token k (session_token w)).0
unfolding session_token
session-Follows token r k none h = inl refl
session-Follows token r k (some v) h = stored-Follows token r k (is_null v) v h

storing-Follows :
    (token : Option Text) (r : Option Reply) (k : Option Json → Value) (s : Settled (Option Json))
    → IsValueOf r s
    → Follows token r (storing token k s).0
storing-Follows token r k (rejected f) h = inl refl
storing-Follows token r k (resolved w) h = session-Follows token r (k w) w h

found-Follows :
    (token : Option Text) (r : Option Reply) (b : Bool) (t : Option Text) (f : Failure)
    → Follows token r t
    → Follows token r
        (if◌then◌else◌ {A = Option Text × Settled Value} b
          (none, resolved (data_of none))
          (t, rejected f)).0
found-Follows token r true t f h = inr (inl refl)
found-Follows token r false t f h = h

finding-Follows :
    (token : Option Text) (r : Option Reply) (s : Option Text × Settled Value)
    → Follows token r s.0
    → Follows token r (finding token s).0
finding-Follows token r (t, resolved v) h = h
finding-Follows token r (t, rejected f) h = found-Follows token r (is_unauthorized f) t f h

clearing-Follows :
    (token : Option Text) (r : Option Reply) (s : Settled (Option Json))
    → Follows token r (clearing token s).0
clearing-Follows token r (rejected f) = inl refl
clearing-Follows token r (resolved a) = inr (inl refl)

parse-value :
    (f : Failure) (c : Text) (w : Option Json) (v : Json)
    → parse f c w ≡ resolved (some v)
    → w ≡ some v
parse-value f [] w v h = ground arith
parse-value f (c ∷ s) none v h = ground arith
parse-value f (c ∷ s) (some w) v h = resolved-injective h

read_sent-value : (a : Reply) (v : Json) → read_sent a ≡ resolved (some v) → a.value ≡ some v
unfolding read_sent
read_sent-value a v h = ground (arith, parse-value bad_syntax a.content a.value v)

read_data-value : (a : Reply) (v : Json) → read_data a ≡ resolved (some v) → a.value ≡ some v
unfolding read_data
read_data-value a v h = ground (arith, parse-value (problem network_problem) a.content a.value v)

data-IsValueOf : (r : Option Reply) → IsValueOf r (unwrap r >>= λ a. read_data a)
data-IsValueOf r v h =
    let (a, e, f) = >>=-eq-resolved (unwrap r) _ h in
    let (g, o) = unwrap-resolved r a e in (a, g, o, read_data-value a v f)

sent-IsValueOf : (r : Option Reply) → IsValueOf r (unwrap r >>= λ a. read_sent a)
sent-IsValueOf r v h =
    let (a, e, f) = >>=-eq-resolved (unwrap r) _ h in
    let (g, o) = unwrap-resolved r a e in (a, g, o, read_sent-value a v f)

settle-Follows :
    (d : Reading) (token : Option Text) (r : Option Reply) → Follows token r (settle d token r).0
unfolding settle
settle-Follows whole token r = inl refl
settle-Follows ignored token r = inl refl
settle-Follows json_body token r = inl refl
settle-Follows sent token r = inl refl
settle-Follows as_content token r = inl refl
settle-Follows (member_of_data k) token r = inl refl
settle-Follows (member_of_json k) token r = inl refl
settle-Follows starts_session token r = storing-Follows token r data_of _ (data-IsValueOf r)
settle-Follows changes_session token r = storing-Follows token r _ _ (data-IsValueOf r)
settle-Follows sends_session token r = storing-Follows token r data_of _ (sent-IsValueOf r)
settle-Follows ends_session token r = clearing-Follows token r _
settle-Follows finds_session token r =
    finding-Follows token r _ (storing-Follows token r data_of _ (data-IsValueOf r))
settle-Follows follows_redirect token r = inl refl

-- The adapter holds no token, or one that a reply of the network gave.
abbrev pub IsGiven : (Request → Option Reply) → Option Text → Type 0
IsGiven fetch t = (t ≡ none) ⊎ ((q : Request) × Gives (fetch q) t)

Follows-IsGiven :
    (fetch : Request → Option Reply) (token t : Option Text) (q : Request)
    → IsGiven fetch token
    → Follows token (fetch q) t
    → IsGiven fetch t
Follows-IsGiven fetch token t q h (inl e) = rw e h
Follows-IsGiven fetch token t q h (inr (inl e)) = inl e
Follows-IsGiven fetch token t q h (inr (inr g)) = inr (q, g)

sending-IsGiven :
    (fetch : Request → Option Reply) (token : Option Text) (x : Call) (b : Bool)
    → IsGiven fetch token
    → IsGiven fetch
        (if◌then◌else◌ {A = Option Text × Settled Value} b
          (settle (reading x) token (fetch (request token x)))
          (token, rejected bad_uri)).0
sending-IsGiven fetch token x true h =
    Follows-IsGiven fetch token _ (request token x) h (settle-Follows (reading x) token _)
sending-IsGiven fetch token x false h = h

perform-IsGiven :
    (fetch : Request → Option Reply) (token : Option Text) (x : Call)
    → IsGiven fetch token
    → IsGiven fetch (perform fetch token x).0
unfolding perform
perform-IsGiven fetch token x h = sending-IsGiven fetch token x (is_sendable x) h

-- After every sequence of calls from a state without a token, the adapter holds no token, or one that was the text in the `csrfToken` member of the JSON body of a reply with a status in the 200s.
pub run-IsGiven :
    (fetch : Request → Option Reply) (token : Option Text) (xs : List Call)
    → IsGiven fetch token
    → IsGiven fetch (run fetch token xs)
unfolding run
run-IsGiven fetch token [] h = h
run-IsGiven fetch token (x ∷ xs) h =
    run-IsGiven fetch (perform fetch token x).0 xs (perform-IsGiven fetch token x h)

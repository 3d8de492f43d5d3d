-- ===== src/Http/Transport.antt =====
-- web/src/api/http/httpAdapter.ts: `unwrap`, `rawFetch`, `getJson` and `sendJson`, each in two parts:
-- the request that it sends, and what it makes of the reply.
use Prim.Native.String.{String}
use wealthboard.Base.{
  List, [], ◌∷◌, ◌++◌, Option, none, some, Text, codes, ◌==◌, ◌≡◌, refl, if◌then◌else◌,
}
use wealthboard.Json.{Json}
use wealthboard.Contract.{Method, get}
use wealthboard.Http.{
  template, url, Body, empty, Request, Reply, is_ok, api_base, set_if, with_csrf,
}
use wealthboard.Http.Problem.{Failure, problem, bad_syntax, to_problem, network_problem}

pub data Settled {ℓ} (A : Type ℓ) : Type ℓ where
  resolved : A → Settled A
  rejected : Failure → Settled A

infixl 5 ◌>>=◌
abbrev pub ◌>>=◌ {ℓ κ} : {A : Type ℓ} {B : Type κ} → Settled A → (A → Settled B) → Settled B
resolved a >>= k = k a
rejected f >>= k = rejected f

-- The parameters that are not `undefined`.
abbrev pub given : List (String × Option Text) → List (String × Text)
given [] = []
given ((k, none) ∷ ps) = given ps
given ((k, some v) ∷ ps) = (k, v) ∷ given ps

-- `if (v !== undefined && v !== '') params.set(k, String(v))`
abbrev pub non_empty : List (String × Option Text) → List (String × Text)
non_empty [] = []
non_empty ((k, none) ∷ ps) = non_empty ps
non_empty ((k, some []) ∷ ps) = non_empty ps
non_empty ((k, some (c ∷ s)) ∷ ps) = (k, c ∷ s) ∷ non_empty ps

-- A request of the typed client, through `csrfMiddleware`.
unfoldable pub typed :
    Option Text
    → Method
    → String
    → List (String × Text)
    → List (String × Option Text)
    → List (String × Option Text)
    → Body
    → Request
unfolding with_csrf
typed token method path values query headers body = record {
  method = method;
  target = template path values;
  query = given query;
  headers = with_csrf token method (given headers);
  body = body;
}

-- The request of `rawFetch`.
unfoldable pub raw :
    Option Text → Text → Method → List (String × Text) → Option Text → Option Text → Body → Request
unfolding with_csrf set_if
raw token path method headers key hash body = record {
  method = method;
  target = url (api_base ++ path);
  query = [];
  headers =
      set_if "X-Preview-Hash" hash (set_if "Idempotency-Key" key (with_csrf token method headers));
  body = body;
}

unfoldable pub get_json : Option Text → Text → List (String × Option Text) → Request
unfolding raw
get_json token path query = record (raw token path get [] none none empty) {
  query = non_empty query;
}

abbrev content_type : Body → List (String × Text)
content_type empty = []
content_type _ = ("Content-Type", codes "application/json") ∷ []

unfoldable pub send_json : Option Text → Text → Method → Body → Option Text → Request
unfolding raw
send_json token path method body key = raw token path method (content_type body) key none body

-- `unwrap` and `rawFetch`, before the body of a success is read: a reply that is ok, or the problem
-- that is thrown.
unfoldable pub unwrap : Option Reply → Settled Reply
unfolding to_problem
unwrap none = rejected (problem network_problem)
unwrap (some r) = if is_ok r then resolved r else rejected (problem (to_problem r r.value))

-- `response.json()`
abbrev json_or_error : Option Json → Settled (Option Json)
json_or_error none = rejected bad_syntax
json_or_error (some v) = resolved (some v)

abbrev pub read_json : Reply → Settled (Option Json)
read_json r = json_or_error r.value

-- A text that is read as JSON, an empty one as `undefined`, and what is thrown for one that is not JSON
abbrev pub parse : Failure → Text → Option Json → Settled (Option Json)
parse f [] v = resolved none
parse f (c ∷ s) none = rejected f
parse f (c ∷ s) (some v) = resolved (some v)

-- The end of `sendJson`: 204 and an empty text are `undefined`.
unfoldable pub read_sent : Reply → Settled (Option Json)
read_sent r = if r.status == 204 then resolved none else parse bad_syntax r.content r.value

-- `result.data` of the typed client, which reads the body while `unwrap` waits for it: 204 and an empty
-- body are `undefined`, and a body that is not JSON ends as one that did not arrive.
unfoldable pub read_data : Reply → Settled (Option Json)
read_data r =
    if r.status == 204 then resolved none else parse (problem network_problem) r.content r.value

-- A chain that resolves has a first part that resolves.
pub >>=-eq-resolved {ℓ κ} :
    {A : Type ℓ} {B : Type κ} (s : Settled A) (k : A → Settled B) {b : B}
    → (s >>= k) ≡ resolved b
    → (a : A) × (s ≡ resolved a) × (k a ≡ resolved b)
>>=-eq-resolved (resolved a) k h = (a, refl, h)
>>=-eq-resolved (rejected f) k h = cc

pub resolved-injective {ℓ} : {A : Type ℓ} {a b : A} → resolved a ≡ resolved b → a ≡ b
resolved-injective h = cc

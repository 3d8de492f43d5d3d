-- ===== src/Http.antt =====
-- web/src/api/http/httpAdapter.ts: the data source that talks to the server. A call of the data
-- source sends a request, which depends on the CSRF token that the adapter holds, and reads what comes
-- back. The network is a parameter: it takes a request to a reply, or to nothing when `fetch` rejects.
pub mod Problem
pub mod Encode
pub mod Transport
pub mod Inputs
pub mod Calls
pub mod Requests
pub mod Readings
pub mod Routes
pub mod Csrf
use Prim.Native.String.{String}
use wealthboard.Base.{
  ℕ, List, [], ◌∷◌, Bool, true, false, ◌&&◌, Option, none, some, Text, codes, leb, ltb,
  if◌then◌else◌, same,
}
use wealthboard.Json.{Json, same_name}
use wealthboard.Contract.{Method, get, put, post, delete, options, head, patch, trace}

-- What follows the origin: a template of the contract with the values of its parameters, for the typed
-- client, or a text, for `rawFetch`.
pub data Target : Type 0 where
  template : String → List (String × Text) → Target
  url : Text → Target

-- `upload` is the content of an import file under its `Content-Type`; `form` is a `FormData`.
pub data Body : Type 0 where
  empty : Body
  json : Json → Body
  upload : String → Text → Body
  form : Body

-- The query stands apart from the target, as the parameters that are set.
pub record Request : Type 0 where
  pub method : Method
  pub target : Target
  pub query : List (String × Text)
  pub headers : List (String × Text)
  pub body : Body

-- The fields of a `Response` that are read. `value` is what its body is as JSON, if it is JSON.
pub record Reply : Type 0 where
  pub status : ℕ
  pub status_text : Text
  pub content : Text
  pub value : Option Json
  pub redirected : Bool
  pub address : Text

-- `response.ok`
abbrev pub is_ok : Reply → Bool
is_ok r = leb 200 r.status && ltb r.status 300

abbrev pub api_base : Text
api_base = codes "/api/v1"

-- `MUTATING.has(method)`
abbrev pub is_mutating : Method → Bool
is_mutating post = true
is_mutating put = true
is_mutating patch = true
is_mutating delete = true
is_mutating _ = false

-- A text that may be missing, in a test: `undefined`, `null` and `''` are false.
abbrev pub is_set : Option Text → Bool
is_set none = false
is_set (some []) = false
is_set (some (c ∷ s)) = true

-- `headers.set(name, value)`
unfoldable pub set_header : String → Text → List (String × Text) → List (String × Text)
unfolding same_name
set_header k v [] = (k, v) ∷ []
set_header k v ((j, w) ∷ hs) = if same_name j k then (k, v) ∷ hs else (j, w) ∷ set_header k v hs

-- `if (value) headers.set(name, value)`
unfoldable pub set_if : String → Option Text → List (String × Text) → List (String × Text)
unfolding set_header
set_if k none hs = hs
set_if k (some []) hs = hs
set_if k (some (c ∷ s)) hs = set_header k (c ∷ s) hs

-- `csrfMiddleware`, and the same line of `rawFetch`
unfoldable pub with_csrf : Option Text → Method → List (String × Text) → List (String × Text)
unfolding set_if
with_csrf token method hs = if is_mutating method then set_if "X-CSRF-Token" token hs else hs

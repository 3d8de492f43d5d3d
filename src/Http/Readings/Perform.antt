-- ===== src/Http/Readings/Perform.antt =====
-- web/src/api/http/httpAdapter.ts: a call of the data source, from the token that the adapter holds to
-- the token that it leaves and what the caller gets.
use wealthboard.Base.{List, [], ◌∷◌, Bool, true, false, Option, none, some, Text, if◌then◌else◌}
use wealthboard.Http.{Request, Reply}
use wealthboard.Http.Problem.{bad_uri}
use wealthboard.Http.Transport.{Settled, rejected}
use wealthboard.Http.Encode.{encode_uri_component}
use wealthboard.Http.Calls.{Call, auth, auth_reauthenticate_oidc}
use wealthboard.Http.Requests.{request}
use wealthboard.Http.Readings.{Value, settle}
use wealthboard.Http.Readings.Each.{reading}

abbrev is_some : Option Text → Bool
is_some none = false
is_some (some s) = true

-- The one call that can throw before it sends is given a page that cannot be encoded.
unfoldable pub is_sendable : Call → Bool
unfolding encode_uri_component
is_sendable (auth (auth_reauthenticate_oidc (some next))) = is_some (encode_uri_component next)
is_sendable _ = true

-- The network takes a request to its reply, or to nothing.
module _ (fetch : Request → Option Reply) where
  unfoldable pub perform : Option Text → Call → Option Text × Settled Value
  unfolding settle request is_sendable
  perform token x =
      if is_sendable x
      then settle (reading x) token (fetch (request token x))
      else (token, rejected bad_uri)

  -- The token after a sequence of calls.
  unfoldable pub run : Option Text → List Call → Option Text
  unfolding perform
  run token [] = token
  run token (x ∷ xs) = run (perform token x).0 xs

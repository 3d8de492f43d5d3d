-- ===== src/Http/Routes.antt =====
-- The requests of web/src/api/http/httpAdapter.ts held against the contract of web/src/api/schema.ts:
-- which operations a request is for, and whether it gives what the operation declares. A path of a
-- template is taken as written, a text by its segments, of which a parameter takes any that is not empty.
pub mod Segments
pub mod Expected
pub mod Books
pub mod Positions
pub mod Wills
pub mod Plans
pub mod Files
pub mod Whole
use Prim.Native.String.{String}
use wealthboard.Base.{
  ℕ, List, [], ◌∷◌, Bool, true, false, ◌&&◌, ◌||◌, Option, none, some, Text, codes, ◌==◌, same,
  if◌then◌else◌, ◌≡◌, not,
}
use wealthboard.Json.{same_name}
use wealthboard.Contract.{
  Members, required, optional, nil, ◌&◌, Method, get, put, post, delete, options, head, patch,
  trace, Operation, PathItem,
}
use wealthboard.Contract.Paths.{paths}
use wealthboard.Http.{Target, template, url, Body, empty, json, upload, form, Request, api_base}

abbrev push : ℕ → List Text → List Text
push c [] = (c ∷ []) ∷ []
push c (p ∷ ps) = (c ∷ p) ∷ ps

-- The segments of a path, up to its query or fragment.
unfoldable pub split : Text → List Text
split [] = [] ∷ []
split (c ∷ s) =
    let parts = split s in
    if c == 47 then [] ∷ parts else if c == 63 || c == 35 then [] ∷ [] else push c parts

abbrev is_hole : Text → Bool
is_hole [] = false
is_hole (c ∷ s) = c == 123

abbrev pub is_filled : Text → Bool
is_filled [] = false
is_filled (c ∷ s) = true

abbrev takes : Text → Text → Bool
takes t s = if is_hole t then is_filled s else same t s

unfoldable pub follows : List Text → List Text → Bool
unfolding same
follows [] [] = true
follows (t ∷ ts) (s ∷ ss) = takes t s && follows ts ss
follows _ _ = false

abbrev are_as_many : List Text → List Text → Bool
are_as_many [] [] = true
are_as_many (t ∷ ts) (s ∷ ss) = are_as_many ts ss
are_as_many _ _ = false

-- What is left of a text after a prefix.
unfoldable pub strip : Text → Text → Option Text
strip [] s = some s
strip (c ∷ p) [] = none
strip (c ∷ p) (d ∷ s) = if c == d then strip p s else none

-- Where a request goes: a template as it is written, or a path below the base by its segments.
pub data Address : Type 0 where
  written : String → Address
  segments : List Text → Address
  outside : Address

abbrev below : Option Text → Address
below none = outside
below (some s) = segments (split s)

unfoldable pub address : Target → Address
unfolding strip split
address (template p values) = written p
address (url u) = below (strip api_base u)

abbrev is_concrete : List Text → Bool
is_concrete [] = true
is_concrete (t ∷ ts) = not (is_hole t) && is_concrete ts

abbrev agrees : Bool → Bool → Bool
agrees true b = b
agrees false b = not b

-- Whether a template, which has parameters or is concrete as asked, is that of an address.
unfoldable pub leads_to : Bool → String → Address → Bool
unfolding split follows same_name
leads_to concrete t (written p) = same_name t p && agrees concrete (is_concrete (split (codes t)))
leads_to concrete t (segments parts) =
    are_as_many (split (codes t)) parts
    && agrees concrete (is_concrete (split (codes t)))
    && follows (split (codes t)) parts
leads_to concrete t outside = false

abbrev rank : Method → ℕ
rank get = 0
rank put = 1
rank post = 2
rank delete = 3
rank options = 4
rank head = 5
rank patch = 6
rank trace = 7

abbrev pick :
    Bool → String → Method → Address → List (Method × Operation) → List Operation → List Operation
pick concrete t m a [] rest = rest
pick concrete t m a ((n, o) ∷ os) rest =
    if (rank n == rank m) && leads_to concrete t a
    then o ∷ pick concrete t m a os rest
    else pick concrete t m a os rest

unfoldable pub matches : Bool → List PathItem → Method → Address → List Operation
unfolding leads_to
matches concrete [] m a = []
matches concrete (p ∷ ps) m a = pick concrete p.template m a p.operations (matches concrete ps m a)

abbrev or_else : List Operation → List Operation → List Operation
or_else [] os = os
or_else (o ∷ more) os = o ∷ more

-- The operations of the contract for a method at an address: concrete paths come before templates.
unfoldable pub operations_at : Method → Address → List Operation
unfolding matches
operations_at m a = or_else (matches true paths m a) (matches false paths m a)

unfoldable pub operations_for : Request → List Operation
unfolding operations_at address
operations_for r = operations_at r.method (address r.target)

unfoldable pub is_named : String → Members → Bool
unfolding same_name
is_named k nil = false
is_named k (required j a & ms) = same_name j k || is_named k ms
is_named k (optional j a & ms) = same_name j k || is_named k ms

unfoldable pub has_key : String → List (String × Text) → Bool
unfolding same_name
has_key k [] = false
has_key k ((j, v) ∷ ps) = same_name j k || has_key k ps

-- Every parameter that is given is declared.
unfoldable pub are_declared : List (String × Text) → Members → Bool
unfolding is_named
are_declared [] ms = true
are_declared ((k, v) ∷ ps) ms = is_named k ms && are_declared ps ms

-- Every parameter that is required is given.
unfoldable pub are_given : Members → List (String × Text) → Bool
unfolding has_key
are_given nil ps = true
are_given (required k a & ms) ps = has_key k ps && are_given ms ps
are_given (optional k a & ms) ps = are_given ms ps

abbrev path_values : Target → Members → Bool
path_values (template p values) ms = are_given ms values && are_declared values ms
path_values (url u) ms = true

-- The media type of a body is one of the operation's, and there is a body exactly if it has one.
abbrev is_admitted : Body → Members → Bool
is_admitted empty nil = true
is_admitted empty (m & ms) = false
is_admitted (json v) ms = is_named "application/json" ms
is_admitted (upload t s) ms = is_named t ms
is_admitted form ms = is_named "multipart/form-data" ms

-- What a request gives is what an operation declares.
unfoldable pub fulfils : Request → Operation → Bool
unfolding is_named are_declared are_given
fulfils r o =
    path_values r.target o.path
    && are_given o.query r.query
    && are_given o.header r.headers
    && is_admitted r.body o.body
    && are_declared r.query o.query

-- A request is for one operation of the contract, and gives what it declares.
abbrev pub Conforms : Request → Operation → Type 0
Conforms r o = (operations_for r ≡ o ∷ []) × (fulfils r o ≡ true)

-- ===== src/Http/Routes/Segments.antt =====
-- The segments of the paths that web/src/api/http/httpAdapter.ts writes around an ID, and the queries
-- of which it leaves out what is missing.
use Prim.Native.String.{String}
use wealthboard.Base.{
  List, [], ◌∷◌, ◌++◌, Bool, true, ◌&&◌, Option, none, some, Text, ◌==◌, ◌≡◌, refl, ap, ◌∙◌, arith,
  not, ◌||◌,
}
use wealthboard.Http.Transport.{given, non_empty}
use wealthboard.Contract.{Method, Operation, Members, Method, Operation}
use wealthboard.Http.{url, api_base}
use wealthboard.Http.Routes.{
  split, is_filled, strip, segments, address, operations_at, is_named, are_declared,
}

-- No code unit ends the segment.
abbrev pub is_unbroken : Text → Bool
is_unbroken [] = true
is_unbroken (c ∷ s) = not (c == 47 || c == 63 || c == 35) && is_unbroken s

-- An ID fills a segment.
abbrev pub IsSegment : Text → Type 0
IsSegment s = (is_filled s ≡ true) × (is_unbroken s ≡ true)

pub split-++ : (s t : Text) → is_unbroken s ≡ true → split (s ++ 47 ∷ t) ≡ s ∷ split t
unfolding split
split-++ [] t h = refl
split-++ (c ∷ s) t h = let ih = split-++ s t (ground arith) in ground arith

pub split-unbroken : (s : Text) → is_unbroken s ≡ true → split s ≡ s ∷ []
unfolding split
split-unbroken [] h = refl
split-unbroken (c ∷ s) h = let ih = split-unbroken s (ground arith) in ground arith

abbrev pub are_named : List (String × Option Text) → Members → Bool
are_named [] ms = true
are_named ((k, v) ∷ ps) ms = is_named k ms && are_named ps ms

pub are_declared-given :
    (ps : List (String × Option Text)) (ms : Members)
    → are_named ps ms ≡ true
    → are_declared (given ps) ms ≡ true
unfolding are_declared
are_declared-given [] ms h = refl
are_declared-given ((k, none) ∷ ps) ms h = are_declared-given ps ms (ground arith)
are_declared-given ((k, some v) ∷ ps) ms h =
    let ih = are_declared-given ps ms (ground arith) in ground arith

pub are_declared-non_empty :
    (ps : List (String × Option Text)) (ms : Members)
    → are_named ps ms ≡ true
    → are_declared (non_empty ps) ms ≡ true
unfolding are_declared
are_declared-non_empty [] ms h = refl
are_declared-non_empty ((k, none) ∷ ps) ms h = are_declared-non_empty ps ms (ground arith)
are_declared-non_empty ((k, some []) ∷ ps) ms h = are_declared-non_empty ps ms (ground arith)
are_declared-non_empty ((k, some (c ∷ s)) ∷ ps) ms h =
    let ih = are_declared-non_empty ps ms (ground arith) in ground arith

-- The operations at a path below the base are those at its segments.
operations_at-split :
    (m : Method) {os : List Operation} (path : Text) (parts : List Text)
    → split path ≡ parts
    → operations_at m (segments parts) ≡ os
    → operations_at m (address (url (api_base ++ path))) ≡ os
unfolding address strip
operations_at-split m path parts e h = rw e h

-- A path that ends with an ID, after a text whose segments are known.
pub at_end :
    (m : Method) {os : List Operation} (front : Text) (parts : List Text)
    → ((t : Text) → split (front ++ t) ≡ parts ++ split t)
    → (id : Text) → is_unbroken id ≡ true
    → operations_at m (segments (parts ++ id ∷ [])) ≡ os
    → operations_at m (address (url (api_base ++ (front ++ id)))) ≡ os
at_end m front parts e id u h =
    operations_at-split m (front ++ id) (parts ++ id ∷ [])
      (e id ∙ ap (λ (qs : List Text). parts ++ qs) (split-unbroken id u)) h

-- A path that goes on after an ID.
pub at_middle :
    (m : Method) {os : List Operation} (front : Text) (parts : List Text)
    → ((t : Text) → split (front ++ t) ≡ parts ++ split t)
    → (id : Text) → is_unbroken id ≡ true
    → (back : Text) (more : List Text) → split back ≡ more
    → operations_at m (segments (parts ++ id ∷ more)) ≡ os
    → operations_at m (address (url (api_base ++ (front ++ (id ++ 47 ∷ back))))) ≡ os
at_middle m front parts e id u back more b h =
    operations_at-split m (front ++ (id ++ 47 ∷ back)) (parts ++ id ∷ more)
      (e (id ++ 47 ∷ back)
        ∙ ap (λ (qs : List Text). parts ++ qs)
            (split-++ id back u ∙ ap (λ (qs : List Text). id ∷ qs) b))
      h

-- ===== src/Http/Readings/Answers.antt =====
-- The answers of web/src/api/schema.ts against the ways in which httpAdapter.ts reads replies: what a
-- reply that answers an operation is, and which answers a reading can be given.
use Prim.Native.String.{String}
use wealthboard.Base.{
  Member, ℕ, List, [], ◌∷◌, Bool, true, false, ◌&&◌, ◌||◌, not, Option, none, some, Text, ◌≡◌, ◌==◌,
  leb, ltb, if◌then◌else◌,
}
use wealthboard.Json.{Json, same_name}
use wealthboard.Contract.{Shape, Members, Answer, text, object, required, optional, nil, ◌&◌}
use wealthboard.Contract.Fits.{fits}
use wealthboard.Http.{Reply, is_ok}
use wealthboard.Http.Readings.{
  Reading, whole, ignored, json_body, sent, as_content, member_of_data, member_of_json,
  starts_session, changes_session, sends_session, ends_session, finds_session, follows_redirect,
}

-- The type under a media type, if the content has it.
unfoldable pub type_of : String → Members → Option Shape
unfolding same_name
type_of k nil = none
type_of k (required j a & ms) = if same_name j k then some a else type_of k ms
type_of k (optional j a & ms) = if same_name j k then some a else type_of k ms

-- A body of a JSON type is a value that fits it, written as a text that is not empty.
abbrev pub Bodied : Option Shape → Reply → Type 0
Bodied none r = Unit
Bodied (some a) r =
    (v : Json) × (c : ℕ) × (s : Text) × (r.value ≡ some v) × (fits a v ≡ true) × (r.content ≡ c ∷ s)

abbrev pub is_text_type : Shape → Bool
is_text_type text = true
is_text_type _ = false

unfoldable pub requires_text : String → Members → Bool
unfolding same_name
requires_text k nil = false
requires_text k (required j a & ms) = (same_name j k && is_text_type a) || requires_text k ms
requires_text k (optional j a & ms) = requires_text k ms

abbrev pub is_object_type : Option Shape → Bool
is_object_type (some (object ms)) = true
is_object_type _ = false

abbrev pub has_text : String → Option Shape → Bool
has_text k (some (object ms)) = requires_text k ms
has_text k _ = false

abbrev pub is_json : Option Shape → Bool
is_json none = false
is_json (some a) = true

-- Whether a reading is made for an answer: 204 has no body, JSON is read where it is the content, and
-- the members that are read are the content's.
unfoldable pub suits : Reading → ℕ → Option Shape → Bool
unfolding requires_text
suits whole n a = n == 204 || is_json a
suits ignored n a = n == 204 || is_json a
suits json_body n a = is_json a
suits sent n a = n == 204 || is_json a
suits as_content n a = true
suits (member_of_data k) n a = not (n == 204) && is_object_type a
suits (member_of_json k) n a = is_object_type a
suits starts_session n a = not (n == 204) && has_text "csrfToken" a
suits changes_session n a = not (n == 204) && has_text "csrfToken" a
suits sends_session n a = not (n == 204) && has_text "csrfToken" a
suits ends_session n a = n == 204 || is_json a
suits finds_session n a = not (n == 204) && has_text "csrfToken" a
suits follows_redirect n a = has_text "redirectUrl" a

abbrev pub is_success : ℕ → Bool
is_success n = leb 200 n && ltb n 300

-- Every success of an operation suits a reading.
unfoldable pub suits_all : Reading → List Answer → Bool
unfolding suits type_of
suits_all d [] = true
suits_all d (a ∷ answers) =
    (not (is_success a.status) || suits d a.status (type_of "application/json" a.content))
    && suits_all d answers

-- A reply that is one of the answers, and a success.
abbrev pub Answers : List Answer → Reply → Type 0
Answers answers r =
    (a : Answer) × Member a answers
    × (a.status ≡ r.status)
    × (is_ok r ≡ true)
    × Bodied (type_of "application/json" a.content) r

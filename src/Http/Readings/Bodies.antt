-- ===== src/Http/Readings/Bodies.antt =====
-- web/src/api/http/httpAdapter.ts: the members that are read of a body that fits a type of the contract.
use Prim.Native.String.{String}
use wealthboard.Base.{
  ℕ, ◌∷◌, Bool, true, false, ◌&&◌, ◌||◌, Option, none, some, Text, codes, same→eq, ◌≡◌, refl, ap,
  ◌∙◌, ◌⊎◌, sym, arith, Option, inl, inr,
}
use wealthboard.Json.{
  Json, json_text, json_object, Fields, no_fields, field, same_name, get_field, member_of,
}
use wealthboard.Contract.{Shape, text, object, required, optional, Members, nil, ◌&◌}
use wealthboard.Contract.Fits.{present, fits, have}
use wealthboard.Http.{Reply}
use wealthboard.Http.Transport.{resolved}
use wealthboard.Http.Readings.{member_value}
use wealthboard.Http.Readings.Answers.{
  Bodied, is_text_type, requires_text, is_object_type, has_text, is_json,
}

-- Names that are written alike find the same member.
get_field-same : (j k : String) (fs : Fields) → codes j ≡ codes k → get_field j fs ≡ get_field k fs
unfolding get_field same_name
get_field-same j k no_fields e = refl
get_field-same j k (field i v fs) e = rw (e, get_field-same j k fs e) refl

pub both : (a b : Bool) → (a && b) ≡ true → (a ≡ true) × (b ≡ true)
both a b h = (ground arith, ground arith)

pub either : (a b : Bool) → (a || b) ≡ true → (a ≡ true) ⊎ (b ≡ true)
either true b h = inl refl
either false b h = inr h

text-fits :
    (a : Shape) (v : Json)
    → is_text_type a ≡ true
    → fits a v ≡ true
    → (t : Text) × (v ≡ json_text t)
unfolding fits
text-fits text (json_text t) h f = (t, refl)
text-fits a v h f = ground arith

present-fits :
    (a : Shape) (v : Option Json)
    → is_text_type a ≡ true
    → present (fits a) v ≡ true
    → (t : Text) × (v ≡ some (json_text t))
present-fits a none h f = ground arith
present-fits a (some v) h f = let (t, e) = text-fits a v h f in (t, ap some e)

-- An object that fits has the texts that its type requires.
have-text :
    (k : String) (ms : Members) (fs : Fields)
    → requires_text k ms ≡ true
    → have ms fs ≡ true
    → (t : Text) × (get_field k fs ≡ some (json_text t))
unfolding requires_text have same_name
have-text k nil fs h f = ground arith
have-text k (optional j a & ms) fs h f = have-text k ms fs h (both _ _ f).1
have-text k (required j a & ms) fs h f =
    let (p, q) = both _ _ f in
    elim (either (same_name j k && is_text_type a) _ h) [
      | inl e ↦
          let (n, w) = both _ _ e in
          let (t, g) = present-fits a (get_field j fs) w p in
          (t, sym (get_field-same j k fs (same→eq (codes j) (codes k) n)) ∙ g)
      | inr e ↦ have-text k ms fs e q
    ]

object-fits :
    (ms : Members) (v : Json)
    → fits (object ms) v ≡ true
    → (fs : Fields) × (v ≡ json_object fs) × (have ms fs ≡ true)
unfolding fits
object-fits ms (json_object fs) f = (fs, refl, f)
object-fits ms v f = ground arith

-- A body of an object type that requires a text.
pub object-text :
    (k : String) (a : Option Shape) (r : Reply)
    → has_text k a ≡ true
    → Bodied a r
    → (fs : Fields) × (t : Text) × (r.value ≡ some (json_object fs))
      × (get_field k fs ≡ some (json_text t))
unfolding fits
object-text k (some (object ms)) r h (v, c, s, e, f, g) =
    let (fs, o, m) = object-fits ms v f in
    let (t, q) = have-text k ms fs h m in (fs, t, e ∙ ap some o, q)
object-text k a r h b = ground arith

pub member-object :
    (k : String) (a : Option Shape) (r : Reply)
    → is_object_type a ≡ true
    → Bodied a r
    → (w : Option Json) × (v : Json) × (r.value ≡ some v) × (member_value k (some v) ≡ resolved w)
unfolding member_value
member-object k (some (object ms)) r h (v, c, s, e, f, g) =
    let (fs, o, m) = object-fits ms v f in (member_of k v, v, e, rw o refl)
member-object k a r h b = ground arith

pub json-value :
    (a : Option Shape) (r : Reply)
    → is_json a ≡ true
    → Bodied a r
    → (v : Json) × (c : ℕ) × (s : Text) × (r.value ≡ some v) × (r.content ≡ c ∷ s)
json-value none r h b = ground arith
json-value (some a) r h (v, c, s, e, f, g) = (v, c, s, e, g)

pub has_text-is_json : (k : String) (a : Option Shape) → has_text k a ≡ true → is_json a ≡ true
has_text-is_json k none h = ground arith
has_text-is_json k (some a) h = refl

pub is_object_type-is_json : (a : Option Shape) → is_object_type a ≡ true → is_json a ≡ true
is_object_type-is_json none h = ground arith
is_object_type-is_json (some a) h = refl

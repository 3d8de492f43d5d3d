-- ===== src/Http/Encode.antt =====
-- `encodeURIComponent`, which web/src/api/http/httpAdapter.ts calls on the page to return to. It walks
-- the code units, writes each character in UTF-8 and escapes the bytes that are not unreserved; a
-- surrogate without its partner is a URIError, which is nothing here.
use mathlib.Core.Option
use wealthboard.Base.{
  ℕ, List, [], ◌∷◌, ◌+◌, ◌-◌, ◌*◌, ◌/◌, ◌%◌, Bool, ◌&&◌, ◌||◌, Option, none, some, Text, leb, ltb,
  ◌==◌, if◌then◌else◌, is_digit,
}

-- `A-Z a-z 0-9 - _ . ! ~ * ' ( )`
unfoldable pub is_unreserved : ℕ → Bool
is_unreserved c =
    (leb 65 c && leb c 90)
    || (leb 97 c && leb c 122)
    || is_digit c
    || c == 45
    || c == 95
    || c == 46
    || c == 33
    || c == 126
    || (leb 39 c && leb c 42)

unfoldable pub hex : ℕ → ℕ
hex d = if ltb d 10 then 48 + d else 55 + d

unfoldable pub escape : ℕ → Text → Text
unfolding hex
escape b rest = 37 ∷ hex (b / 16) ∷ hex (b % 16) ∷ rest

unfoldable pub escape_all : List ℕ → Text → Text
unfolding escape
escape_all [] rest = rest
escape_all (b ∷ bs) rest = escape b (escape_all bs rest)

-- The bytes of a character in UTF-8.
unfoldable pub utf8 : ℕ → List ℕ
utf8 n =
    if ltb n 128
    then n ∷ []
    else if ltb n 2048
    then (192 + n / 64) ∷ (128 + n % 64) ∷ []
    else if ltb n 65536
    then (224 + n / 4096) ∷ (128 + n / 64 % 64) ∷ (128 + n % 64) ∷ []
    else (240 + n / 262144) ∷ (128 + n / 4096 % 64) ∷ (128 + n / 64 % 64) ∷ (128 + n % 64) ∷ []

-- One character in front of `rest`.
unfoldable pub encode_char : ℕ → Text → Text
unfolding is_unreserved escape_all utf8
encode_char n rest = if is_unreserved n then n ∷ rest else escape_all (utf8 n) rest

abbrev pub is_high : ℕ → Bool
is_high c = leb 55296 c && ltb c 56320

abbrev pub is_low : ℕ → Bool
is_low c = leb 56320 c && ltb c 57344

abbrev pub joined : ℕ → ℕ → ℕ
joined h l = 65536 + (h - 55296) * 1024 + (l - 56320)

-- The walk, with the high surrogate that waits for its partner.
unfoldable pub encode_from : Option ℕ → Text → Option Text
unfolding encode_char
encode_from none [] = some []
encode_from (some h) [] = none
encode_from none (c ∷ s) =
    let waiting = encode_from (some c) s in
    let more = encode_from none s in
    if is_high c then waiting else if is_low c then none else Option.map (encode_char c) more
encode_from (some h) (c ∷ s) =
    let more = encode_from none s in
    if is_low c then Option.map (encode_char (joined h c)) more else none

unfoldable pub encode_uri_component : Text → Option Text
unfolding encode_from
encode_uri_component = encode_from none

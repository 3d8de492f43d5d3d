-- ===== src/Decimal.antt =====
-- web/src/api/mock/decimal.ts: BigInt arithmetic on decimals that are scaled by 10^12.
pub mod Rounding
pub mod RoundTrip
pub mod Exact
use wealthboard.Base.{
  ℕ, zero, suc, ◌+◌, ◌-◌, ◌*◌, ◌/◌, ◌%◌, ◌^◌, Bool, true, false, not, ◌&&◌, List, [], ◌∷◌, ◌++◌,
  ltb, ◌==◌, if◌then◌else◌, length, take, drop, replicate, Text, all_digits, pad_start,
  digits_value, to_string, ℤ, pos, signed, is_negative, is_zero, ltb_ℤ, magnitude, ◌*ℤ◌, quot,
  Result, ok, err, range_error, syntax_error, ◌>>=◌,
}
use wealthboard.Money.{minor_exponent}

abbrev pub scale_digits : ℕ
scale_digits = 12

abbrev pub scale : ℕ
scale = 10 ^ scale_digits

-- `BigInt(s)` on a text of digits; the empty text is 0, and any other text is refused: so
-- are the signs, white space and prefixes that BigInt also reads, which do not occur in a decimal text
-- without its sign.
unfoldable pub big_int : Text → Result ℕ
unfolding digits_value
big_int s = if all_digits s then ok (digits_value 0 s) else err syntax_error

-- `s.split('.')`: the first piece, and the second or the empty text.
unfoldable pub before_dot : Text → Text
before_dot [] = []
before_dot (c ∷ s) = if c == 46 then [] else c ∷ before_dot s

unfoldable pub after_dot : Text → Text
unfolding before_dot
after_dot [] = []
after_dot (c ∷ s) = if c == 46 then before_dot s else after_dot s

-- `s.startsWith('-')`
abbrev pub starts_minus : Text → Bool
starts_minus [] = false
starts_minus (c ∷ s) = c == 45

-- `negative ? s.slice(1) : s`
abbrev pub strip_minus : Text → Text
strip_minus s = if starts_minus s then drop 1 s else s

-- `s.slice(0, n)` after `s + '0'.repeat(n)`
abbrev pub pad_slice : ℕ → Text → Text
pad_slice n s = take n (s ++ replicate n 48)

-- `toScaled`
unfoldable pub to_scaled : Text → Result ℤ
unfolding big_int before_dot after_dot
to_scaled decimal = do
  let negative = starts_minus decimal
  let body = strip_minus decimal
  whole ← big_int (before_dot body)
  frac ← big_int (pad_slice scale_digits (after_dot body))
  ok (signed negative (whole * scale + frac))

-- `s.replace(/0+$/, '')`
unfoldable pub strip_zeros : Text → Text
strip_zeros [] = []
strip_zeros (c ∷ s) = elim (strip_zeros s) [
  | [] ↦ if c == 48 then [] else c ∷ []
  | d ∷ t ↦ c ∷ d ∷ t
]

-- The digits behind the point: `(abs % SCALE).toString().padStart(12, '0').slice(0, maxFraction)`
unfoldable pub fraction_digits : ℕ → ℕ → Text
unfolding to_string pad_start
fraction_digits n max_fraction = take max_fraction (pad_start scale_digits (to_string (n % scale)))

abbrev pub with_point : Text → Text
with_point [] = []
with_point (c ∷ s) = 46 ∷ c ∷ s

abbrev pub is_zero_text : Text → Bool
is_zero_text (c ∷ []) = c == 48
is_zero_text _ = false

-- `fromScaled`
unfoldable pub from_scaled : ℤ → ℕ → Text
unfolding to_string strip_zeros fraction_digits
from_scaled v max_fraction =
    let abs = magnitude v in
    let frac = strip_zeros (fraction_digits abs max_fraction) in
    let out = to_string (abs / scale) ++ with_point frac in
    if is_negative v && not (is_zero_text out) then 45 ∷ out else out

-- `a < 0n !== b < 0n`
abbrev pub signs_differ : ℤ → ℤ → Bool
signs_differ a b = if is_negative a then not (is_negative b) else is_negative b

-- What `divRound` returns for a divisor that is not zero: half away from zero.
unfoldable pub rounded : ℤ → ℤ → ℤ
rounded a b = signed (signs_differ a b) ((magnitude a * 2 + magnitude b) / (magnitude b * 2))

-- `divRound`
unfoldable pub div_round : ℤ → ℤ → Result ℤ
unfolding rounded
div_round a b = if is_zero b then err range_error else ok (rounded a b)

-- `mulToMinor`
unfoldable pub mul_to_minor : Text → Text → Text → Result ℤ
unfolding to_scaled div_round minor_exponent ◌*ℤ◌
mul_to_minor quantity unit_price currency = do
  q ← to_scaled quantity
  p ← to_scaled unit_price
  div_round (q *ℤ p *ℤ pos (10 ^ minor_exponent currency)) (pos (scale * scale))

-- `majorToMinor`
unfoldable pub major_to_minor : Text → Text → Result ℤ
unfolding to_scaled div_round minor_exponent ◌*ℤ◌
major_to_minor decimal currency = do
  v ← to_scaled decimal
  div_round (v *ℤ pos (10 ^ minor_exponent currency)) (pos scale)

-- `minorToMajor`
unfoldable pub minor_to_major : ℤ → Text → Text
unfolding from_scaled minor_exponent quot ◌*ℤ◌
minor_to_major minor currency =
    let exp = minor_exponent currency in from_scaled (quot (minor *ℤ pos scale) (10 ^ exp)) exp

-- `convertMinor`
unfoldable pub convert_minor : ℤ → Text → Text → Text → Bool → Result ℤ
unfolding to_scaled div_round minor_exponent ◌*ℤ◌
convert_minor minor from to rate invert = do
  let exp_from = minor_exponent from
  let exp_to = minor_exponent to
  r ← to_scaled rate
  if invert
      then div_round (minor *ℤ pos scale *ℤ pos (10 ^ exp_to)) (r *ℤ pos (10 ^ exp_from))
      else div_round (minor *ℤ r *ℤ pos (10 ^ exp_to)) (pos (scale * 10 ^ exp_from))

-- `abs.slice(0, -digits)` and `abs.slice(-digits)`, for `digits` other than 0
abbrev pub slice_split : Text → ℕ → Text
slice_split s n = take (length s - n) s ++ 46 ∷ drop (length s - n) s

-- `percentOf`
unfoldable pub percent_of : ℤ → ℤ → ℕ → Result Text
unfolding div_round to_string pad_start ◌*ℤ◌
percent_of a b digits =
    if is_zero b
    then ok (48 ∷ [])
    else div_round (a *ℤ pos 100 *ℤ pos (10 ^ digits)) b >>= λ scaled.
        let abs = pad_start (digits + 1) (to_string (magnitude scaled)) in
        let out = if digits == 0 then abs else slice_split abs digits in
        ok (if is_negative scaled then 45 ∷ out else out)

-- `bigMax` and `bigMin`: a reduction from the first value, with the earlier one kept on a tie.
unfoldable pub big_max : ℤ → List ℤ → ℤ
big_max a [] = a
big_max a (b ∷ bs) = big_max (if ltb_ℤ a b then b else a) bs

unfoldable pub big_min : ℤ → List ℤ → ℤ
big_min a [] = a
big_min a (b ∷ bs) = big_min (if ltb_ℤ b a then b else a) bs

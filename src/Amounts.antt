-- ===== src/Amounts.antt =====
-- web/src/lib/money.ts: amounts as texts of minor units, their decimal texts, and what is printed of
-- them. `Intl.NumberFormat` is a parameter, which takes its options and a decimal text to a text.
pub mod Clean
pub mod Readback
pub mod RoundTrip
pub mod Compare
pub mod Format
use wealthboard.Base.{
  ℕ, zero, suc, ◌+◌, ◌-◌, [], ◌∷◌, ◌++◌, Bool, true, false, not, ◌&&◌, ◌||◌, ltb, leb, ◌==◌,
  if◌then◌else◌, any, every, keep, take, drop, length, replicate, ℤ, pos, Text, codes, same,
  is_digit, all_digits, digits_value, to_string, pad_start, Result, ok, err, ◌>>=◌, ◌>>◌, throw_if,
  type_error, precision_error, is_zero, is_negative, ltb_ℤ, eqb_ℤ,
}
use wealthboard.Money.{minor_exponent}
use wealthboard.Decimal.{before_dot, after_dot, starts_minus, strip_minus, with_point}
use wealthboard.Adapter.Entries.{is_empty, integer, is_minor_text}
use wealthboard.Adapter.Accounts.{is_space, trim}
use wealthboard.Adapter.Goals.{is_decimal}

-- `isMinorUnits`, and `assertMinor` before what follows it
unfoldable pub is_minor_units : Text → Bool
is_minor_units s = is_minor_text s

-- `isDecimalString`
unfoldable pub is_decimal_string : Text → Bool
unfolding is_decimal
is_decimal_string s = is_decimal s

-- `s.replace(/^0+(?=\d)/, '')`
unfoldable pub trim_zeros : Text → Text
trim_zeros [] = []
trim_zeros (c ∷ []) = c ∷ []
trim_zeros (c ∷ d ∷ s) =
    let rest = trim_zeros (d ∷ s) in if c == 48 && is_digit d then rest else c ∷ d ∷ s

abbrev pub sign_text : Bool → Text
sign_text true = 45 ∷ []
sign_text false = []

-- `/^0+$/.test(s)`
abbrev pub are_zeros : Text → Bool
are_zeros s = not (is_empty s) && every (λ c. c == 48) s

-- The two ends of `minorToDecimal`, for a currency without decimals and for one with them.
abbrev pub without_decimals : Bool → Text → Text
without_decimals negative digits = sign_text (negative && not (same digits (codes "0"))) ++ digits

abbrev pub whole_part : ℕ → Text → Text
whole_part exp padded = take (length padded - exp) padded

abbrev pub frac_part : ℕ → Text → Text
frac_part exp padded = drop (length padded - exp) padded

abbrev pub with_decimals : ℕ → Bool → Text → Text
with_decimals exp negative padded =
    sign_text (negative && not (are_zeros (whole_part exp padded ++ frac_part exp padded)))
    ++ (whole_part exp padded ++ 46 ∷ frac_part exp padded)

abbrev pub written : ℕ → Bool → Text → Text
written zero negative digits = without_decimals negative digits
written (suc e) negative digits = with_decimals (suc e) negative (pad_start (suc e + 1) digits)

-- `minorToDecimal`
unfoldable pub minor_to_decimal : Text → Text → Result Text
unfolding trim_zeros is_minor_units
minor_to_decimal minor currency = do
  throw_if (not (is_minor_units minor)) type_error
  ok (written (minor_exponent currency) (starts_minus minor) (trim_zeros (strip_minus minor)))

-- `[,\s_]`
abbrev pub is_separator : ℕ → Bool
is_separator c = c == 44 || is_space c || c == 95

-- `s.replace(MINUS, '-')`: the first one only
unfoldable pub replace_minus : Text → Text
replace_minus [] = []
replace_minus (c ∷ s) = if c == 8722 then 45 ∷ s else c ∷ replace_minus s

unfoldable pub clean : Text → Text
unfolding replace_minus
clean input = replace_minus (keep (λ c. not (is_separator c)) (trim input))

abbrev head_is_dot : Text → Bool
head_is_dot [] = false
head_is_dot (c ∷ s) = c == 46

-- `/^-?\.[0-9]+$/.test(s)`
abbrev pub is_fraction : Text → Bool
is_fraction s =
    head_is_dot (strip_minus s)
    && not (is_empty (drop 1 (strip_minus s)))
    && all_digits (drop 1 (strip_minus s))

abbrev pub is_number_text : Text → Bool
is_number_text s = is_decimal_string s || is_fraction s

-- `s.padEnd(n, '0')`
abbrev pub pad_end : ℕ → Text → Text
pad_end n s = s ++ replicate (n - length s) 48

-- A sign in front of the digits of a number, and none of zero.
abbrev pub signed_text : Bool → ℕ → Text
signed_text negative n = if n == 0 then codes "0" else sign_text negative ++ to_string n

-- `decimalToMinor`, behind its cleaning
unfoldable pub read_decimal : Text → ℕ → Result Text
unfolding is_decimal_string
read_decimal cleaned exp = do
  throw_if (not (is_number_text cleaned)) type_error
  let whole = before_dot (strip_minus cleaned)
  let frac = after_dot (strip_minus cleaned)
  throw_if (ltb exp (length frac) && any (λ c. leb 49 c && leb c 57) (drop exp frac))
      precision_error
  ok (signed_text (starts_minus cleaned) (digits_value 0 (whole ++ pad_end exp (take exp frac))))

unfoldable pub decimal_to_minor : Text → Text → Result Text
unfolding clean read_decimal
decimal_to_minor input currency = read_decimal (clean input) (minor_exponent currency)

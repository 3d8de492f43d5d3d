-- ===== src/Amounts/Format.antt =====
-- web/src/lib/money.ts: printed amounts, decimals and percentages. `format` is `Intl.NumberFormat` for
-- the locale: it takes its options and an unsigned decimal text.
pub mod Parts
pub mod Printed
pub mod Percent
use wealthboard.Base.{
  ℕ, ◌-◌, ◌==◌, ltb, [], ◌∷◌, ◌++◌, Bool, true, false, not, ◌&&◌, ◌||◌, if◌then◌else◌, any, leb,
  drop, take, length, Text, codes, to_upper, to_string, pad_start, ℤ, pos, negsuc, magnitude,
  is_negative, is_zero, Result, ok, err, ◌>>=◌, ◌>>◌, throw_if, type_error,
}
use wealthboard.Money.{minor_exponent}
use wealthboard.Decimal.{starts_minus, strip_minus, strip_zeros, with_point}
use wealthboard.Amounts.{minor_to_decimal, is_decimal_string, sign_text}
use wealthboard.Amounts.Compare.{minor_sign}

-- The options that are passed to `Intl.NumberFormat`.
pub data FormatOptions : Type 0 where
  compact_notation : ℕ → ℕ → FormatOptions
  fraction_digits : ℕ → ℕ → FormatOptions

pub data SignMode : Type 0 where
  auto always never : SignMode

pub record MoneyFormatOptions : Type 0 where
  pub compact : Bool
  pub sign : SignMode
  pub hide_code : Bool

-- `applySign`, for the sign of a number that is not zero
abbrev signed_body : Text → Bool → SignMode → Text
signed_body body negative never = body
signed_body body true mode = 8722 ∷ body
signed_body body false always = 43 ∷ body
signed_body body false auto = body

unfoldable pub apply_sign : Text → ℤ → SignMode → Text
apply_sign body sign mode = if is_zero sign then body else signed_body body (is_negative sign) mode

pub record MoneyParts : Type 0 where
  pub sign : Text
  pub code : Text
  pub amount : Text

abbrev pub has_sign : Text → Bool
has_sign [] = false
has_sign (c ∷ s) = c == 8722 || c == 43

-- A printed text beside the code, its sign apart.
abbrev pub apart : Text → Text → MoneyParts
apart currency_code full = record {
  sign = if has_sign full then take 1 full else [];
  code = currency_code;
  amount = if has_sign full then drop 1 full else full;
}

pub record DecimalFormatOptions : Type 0 where
  pub min_fraction : ℕ
  pub max_fraction : ℕ
  pub sign : SignMode

abbrev max : ℕ → ℕ → ℕ
max a b = if ltb a b then b else a

-- The decimal text that `formatBps` passes to `formatPercent`, before it is printed.
unfoldable pub bps_decimal : ℤ → Text
unfolding pad_start to_string strip_zeros
bps_decimal bps =
    let abs = pad_start 3 (to_string (magnitude bps)) in
    let whole = take (length abs - 2) abs in
    let frac = strip_zeros (drop (length abs - 2) abs) in
    sign_text (is_negative bps) ++ (whole ++ with_point frac)

module _ (format : FormatOptions → Text → Text) where
  -- `formatMoney`
  unfoldable pub format_money : Text → Text → MoneyFormatOptions → Result Text
  unfolding minor_to_decimal minor_sign apply_sign to_upper
  format_money minor currency o = do
    decimal ← minor_to_decimal minor currency
    s ← minor_sign minor
    let exp = minor_exponent currency
    let shape = if o.compact then compact_notation 0 1 else fraction_digits exp exp
    let body = format shape (strip_minus decimal)
    let text = if o.hide_code then body else to_upper currency ++ 160 ∷ body
    ok (apply_sign text s o.sign)

  -- `formatMoneyParts`
  unfoldable pub format_money_parts : Text → Text → MoneyFormatOptions → Result MoneyParts
  unfolding format_money to_upper
  format_money_parts minor currency o = do
    full ← format_money minor currency (record o { hide_code = true })
    ok (apart (to_upper currency) full)

  -- `formatDecimal`
  unfoldable pub format_decimal : Text → DecimalFormatOptions → Result Text
  unfolding is_decimal_string apply_sign
  format_decimal decimal o = do
    throw_if (not (is_decimal_string decimal)) type_error
    let abs = strip_minus decimal
    let unit = if starts_minus decimal then negsuc 0 else pos 1
    let sign = if any (λ c. leb 49 c && leb c 57) abs then unit else pos 0
    ok (
        apply_sign (format (fraction_digits o.min_fraction (max o.min_fraction o.max_fraction)) abs)
          sign o.sign)

  -- `formatPercent`, with its options filled in
  unfoldable pub format_percent : Text → ℕ → SignMode → Result Text
  unfolding format_decimal
  format_percent decimal max_fraction sign = do
    text ←
        format_decimal decimal
          (record { min_fraction = 0; max_fraction = max_fraction; sign = sign })
    ok (text ++ codes "%")

  -- `formatBps` of an integer
  unfoldable pub format_bps : ℤ → SignMode → Result Text
  unfolding format_percent bps_decimal
  format_bps bps sign = format_percent (bps_decimal bps) 2 sign

-- `maskedMoney`
unfoldable pub masked_money : Text → Text
unfolding to_upper
masked_money currency = to_upper currency ++ 160 ∷ codes "••••••"

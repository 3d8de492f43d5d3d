-- ===== src/Amounts/Format/Printed.antt =====
-- web/src/lib/money.ts: what `percentToBps` reads of what `formatBps` prints.
use wealthboard.Base.{
  ℕ, ◌+◌, ◌-◌, ◌/◌, ◌%◌, ◌≤◌, ◌<◌, [], ◌∷◌, ◌++◌, true, false, ◌&&◌, leb, every, length, Text,
  all_digits, to_string, ℤ, pos, Result, ok, ◌>>=◌, ◌≡◌, refl, Bool-cases, inl, inr, any, sym, ap,
  ◌∙◌, arith, length-append, take-append_length, drop-append_length,
}
use wealthboard.Base.Digits.{to_string-all_digits}
use wealthboard.Base.Decimals.{length-to_string, pad_start-to_string}
use wealthboard.Decimal.{starts_minus, strip_zeros, with_point}
use wealthboard.Decimal.RoundTrip.{strip_zeros-all_digits}
use wealthboard.Adapter.Accounts.{trim_start, trim_end}
use wealthboard.Adapter.Goals.{percent_to_bps, drop_percent, is_decimal}
use wealthboard.Amounts.Clean.{is_plain, trim-plain}
use wealthboard.Amounts.Readback.{
  decimal_text, is_plain-digits, starts_minus-sign_text, is_decimal-decimal_text, every-append,
  with_point-plain,
}
use wealthboard.Amounts.Format.{
  FormatOptions, fraction_digits, SignMode, auto, bps_decimal, format_percent, format_bps,
}
use wealthboard.Amounts.Format.Percent.{drop_percent-plain, percent_to_bps-bps_decimal}

trim_start-percent : (s : Text) → every is_plain s ≡ true → trim_start (s ++ 37 ∷ []) ≡ s ++ 37 ∷ []
unfolding trim_start
trim_start-percent [] h = refl
trim_start-percent (c ∷ s) h = ground arith

trim_end-percent : (s : Text) → every is_plain s ≡ true → trim_end (s ++ 37 ∷ []) ≡ s ++ 37 ∷ []
unfolding trim_end
trim_end-percent [] h = refl
trim_end-percent (c ∷ s) h = let ih = trim_end-percent s (ground arith) in ground arith

drop_percent-percent : (s : Text) → every is_plain s ≡ true → drop_percent (s ++ 37 ∷ []) ≡ s
unfolding drop_percent
drop_percent-percent [] h = refl
drop_percent-percent (c ∷ s) h = let ih = drop_percent-percent s (ground arith) in ground arith

-- A percent sign behind a number changes nothing.
percent_to_bps-percent :
    (s : Text) → every is_plain s ≡ true → percent_to_bps (s ++ 37 ∷ []) ≡ percent_to_bps s
unfolding percent_to_bps
percent_to_bps-percent s h =
    rw
      (
        trim_start-percent s h,
        trim_end-percent s h,
        drop_percent-percent s h,
        trim-plain s h,
        drop_percent-plain s h,
      )
      refl

-- The percent text of a number, apart into its whole part and what is left of two digits.
abbrev hundredths : ℕ → Text
hundredths n = strip_zeros ((48 + n / 10 % 10) ∷ (48 + n % 10) ∷ [])

bps_decimal-hundredths :
    (n : ℕ) → bps_decimal (pos n) ≡ decimal_text (to_string (n / 100)) (hundredths n)
unfolding bps_decimal
bps_decimal-hundredths n =
    let w = to_string (n / 100) in
    let s : Text = (48 + n / 10 % 10) ∷ (48 + n % 10) ∷ [] in
    let l : length (w ++ s) - 2 ≡ length w = omega (arith, length-append w s) in
    rw (pad_start-to_string n, l, take-append_length w s, drop-append_length w s) refl

format_percent-unsigned :
    (format : FormatOptions → Text → Text) (s : Text)
    → is_decimal s ≡ true
    → starts_minus s ≡ false
    → format_percent format s 2 auto ≡ ok (format (fraction_digits 0 2) s ++ 37 ∷ [])
unfolding format_percent is_decimal
format_percent-unsigned format s d m =
    let k = rw m at d in
    elim (Bool-cases (any (λ c. leb 49 c && leb c 57) s)) [
      | inl some ↦ rw (m, k, some) refl
      | inr none ↦ rw (m, k, none) refl
    ]

-- A decimal text whose whole part has a digit.
is_decimal-whole :
    (w f : Text)
    → 1 ≤ length w
    → all_digits w ≡ true
    → all_digits f ≡ true
    → (is_decimal (decimal_text w f) ≡ true) × (starts_minus (decimal_text w f) ≡ false)
is_decimal-whole [] f h d g = absurd (omega arith)
is_decimal-whole (c ∷ s) f h d g = (
  is_decimal-decimal_text false c s f (ground arith) (ground arith) g,
  starts_minus-sign_text false c (s ++ with_point f) (ground arith),
)

hundredths-all_digits : (n : ℕ) → all_digits (hundredths n) ≡ true
hundredths-all_digits n =
    strip_zeros-all_digits ((48 + n / 10 % 10) ∷ (48 + n % 10) ∷ []) (ground arith)

format_bps_lem :
    (format : FormatOptions → Text → Text) (bps : ℤ) (sign : SignMode)
    → format_bps format bps sign ≡ format_percent format (bps_decimal bps) 2 sign
unfolding format_bps bps_decimal
format_bps_lem format bps sign = refl

-- When `Intl.NumberFormat`, for up to two decimals, prints a number below 1,000 with at most two decimals and no zeros behind them as it is written, `percentToBps` reads what `formatBps` prints, with automatic sign, of any basis points from 0 to 99,999 back as that number.
pub percent_to_bps-format_bps :
    (format : FormatOptions → Text → Text)
    → ((w a b : ℕ)
        → w < 1000
        → a < 10
        → b < 10
        → let s = decimal_text (to_string w) (strip_zeros ((48 + a) ∷ (48 + b) ∷ [])) in
          format (fraction_digits 0 2) s ≡ s)
    → (bps : ℕ) → bps < 100000
    → (format_bps format (pos bps) auto >>= percent_to_bps) ≡ ok (pos bps)
percent_to_bps-format_bps format prints n h =
    let w = to_string (n / 100) in
    let f = hundredths n in
    let s = decimal_text w f in
    let dw = to_string-all_digits (n / 100) in
    let df = hundredths-all_digits n in
    let (decimal, unsigned) = is_decimal-whole w f (length-to_string (n / 100)) dw df in
    let plain = every-append w (with_point f) (is_plain-digits w dw) (with_point-plain f df) in
    ap (λ (r : Result Text). r >>= percent_to_bps)
      (format_bps_lem format (pos n) auto
        ∙ ap (λ (t : Text). format_percent format t 2 auto) (bps_decimal-hundredths n)
        ∙ format_percent-unsigned format s decimal unsigned
        ∙ ap (λ (t : Text). ok (t ++ 37 ∷ []))
            (prints (n / 100) (n / 10 % 10) (n % 10) (omega arith) (omega arith) (omega arith)))
    ∙ percent_to_bps-percent s plain
    ∙ ap percent_to_bps (sym (bps_decimal-hundredths n))
    ∙ percent_to_bps-bps_decimal (pos n)

-- ===== src/Amounts/Format/Parts.antt =====
-- web/src/lib/money.ts: `formatMoneyParts` beside `formatMoney`.
use wealthboard.Base.{
  [], true, false, if◌then◌else◌, drop, take, Text, to_upper, ℤ, Result, ok, err, ◌>>=◌, ◌≡◌, refl,
  arith,
}
use wealthboard.Money.{minor_exponent}
use wealthboard.Decimal.{strip_minus}
use wealthboard.Amounts.{minor_to_decimal}
use wealthboard.Amounts.Compare.{minor_sign}
use wealthboard.Amounts.Format.{
  FormatOptions, compact_notation, fraction_digits, SignMode, auto, always, never,
  MoneyFormatOptions, apply_sign, has_sign, apart, MoneyParts, format_money, format_money_parts,
}

-- What `formatMoneyParts` makes of a text without a sign, and of the sign in front of it.
sign_apart :
    (body : Text) (s : ℤ) (mode : SignMode)
    → has_sign body ≡ false
    → (if has_sign (apply_sign body s mode) then take 1 (apply_sign body s mode) else [])
      ≡ apply_sign [] s mode
unfolding apply_sign
sign_apart body s never h = ground arith
sign_apart body s auto h = ground arith
sign_apart body s always h = ground arith

amount_apart :
    (body : Text) (s : ℤ) (mode : SignMode)
    → has_sign body ≡ false
    → (if has_sign (apply_sign body s mode)
        then drop 1 (apply_sign body s mode)
        else apply_sign body s mode)
      ≡ apply_sign body s never
unfolding apply_sign
amount_apart body s never h = ground arith
amount_apart body s auto h = ground arith
amount_apart body s always h = ground arith

-- An amount, and the sign of a number as `applySign` writes it.
abbrev pub signed_parts : Text → SignMode → Text → ℤ → Result MoneyParts
signed_parts c mode body s = ok (record { sign = apply_sign [] s mode; code = c; amount = body })

parts_of :
    (r : Result Text) (m : Result ℤ) (print : Text → Text) (c : Text) (mode : SignMode)
    → ((d : Text) → has_sign (print d) ≡ false)
    → ((r >>= λ d. m >>= λ s. ok (apply_sign (print d) s mode)) >>= λ full. ok (apart c full)) ≡ (
        (r >>= λ d. m >>= λ s. ok (apply_sign (print d) s never)) >>= λ body.
        m >>= λ s. signed_parts c mode body s)
parts_of (err e) m print c mode h = refl
parts_of (ok d) (err e) print c mode h = refl
parts_of (ok d) (ok s) print c mode h =
    rw (sign_apart (print d) s mode (h d), amount_apart (print d) s mode (h d)) refl

module _ (format : FormatOptions → Text → Text)
    (unsigned : (o : FormatOptions) (s : Text) → has_sign (format o s) ≡ false) where
  -- When `Intl.NumberFormat` prints neither `+` nor U+2212 first, `formatMoneyParts` fails as `formatMoney` does, or gives the upper-cased code, as the amount what `formatMoney` prints without code and sign, and as the sign what `applySign` puts in front of nothing for the sign of the minor units.
  pub format_money_parts-format_money :
      (minor currency : Text) (o : MoneyFormatOptions)
      → format_money_parts format minor currency o ≡ (
          format_money format minor currency (record o { hide_code = true; sign = never })
          >>= λ body. minor_sign minor >>= λ s. signed_parts (to_upper currency) o.sign body s)
  unfolding format_money_parts format_money
  format_money_parts-format_money minor currency o =
      let exp = minor_exponent currency in
      parts_of (minor_to_decimal minor currency) (minor_sign minor)
        (λ d.
          format (if o.compact then compact_notation 0 1 else fraction_digits exp exp)
            (strip_minus d))
        (to_upper currency) o.sign (λ d. unsigned _ _)

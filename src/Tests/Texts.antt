-- ===== src/Tests/Texts.antt =====
-- Tests of the texts of amounts of web/src/lib/money.ts.
use wealthboard.Base.{
  ◌∷◌, Text, true, false, pos, arith, codes, ok, err, ◌>>=◌, digits_value, ◌≡◌, refl, type_error,
  precision_error, to_string, to_upper,
}
use wealthboard.Decimal.{starts_minus, strip_minus, before_dot, after_dot}
use wealthboard.Money.{minor_exponent}
use wealthboard.Adapter.Accounts.{trim_start, trim_end}
use wealthboard.Adapter.Goals.{percent_to_bps, after_dot_all}
use wealthboard.Amounts.{minor_to_decimal, decimal_to_minor, signed_text}
use wealthboard.Amounts.RoundTrip.{decimal_to_minor-minor_to_decimal}
use wealthboard.Amounts.Compare.{minor_sign}
use wealthboard.Amounts.Format.{
  format_bps, auto, FormatOptions, MoneyFormatOptions, always, never, format_money,
  format_money_parts,
}
use wealthboard.Amounts.Format.Parts.{signed_parts, format_money_parts-format_money}
use wealthboard.Amounts.Format.Printed.{percent_to_bps-format_bps}

decimal_to_minor-minor_to_decimal_example :
    (minor_to_decimal (codes "-0001250") (codes "KWD") >>= λ d. decimal_to_minor d (codes "KWD"))
    ≡ ok (
        signed_text
          (starts_minus (codes "-0001250"))
          (digits_value 0 (strip_minus (codes "-0001250"))))
decimal_to_minor-minor_to_decimal_example =
    decimal_to_minor-minor_to_decimal (codes "-0001250") (codes "KWD") refl

abbrev literal : FormatOptions → Text → Text
literal o s = s

percent_to_bps-format_bps_example :
    (format_bps literal (pos 825) auto >>= percent_to_bps) ≡ ok (pos 825)
percent_to_bps-format_bps_example =
    percent_to_bps-format_bps literal (λ w a b h k l. refl) 825 (omega arith)

abbrev printed : FormatOptions → Text → Text
printed o s = 48 ∷ s

abbrev gain : MoneyFormatOptions
gain = record { compact = true; sign = always; hide_code = false }

format_money_parts-format_money_example :
    format_money_parts printed (codes "-1250") (codes "kes") gain ≡ (
      format_money printed
        (codes "-1250")
        (codes "kes")
        (record gain { hide_code = true; sign = never })
      >>= λ body.
          minor_sign (codes "-1250") >>= λ s. signed_parts (to_upper (codes "kes")) always body s)
format_money_parts-format_money_example =
    format_money_parts-format_money printed (λ o s. refl) (codes "-1250") (codes "kes") gain

typed_amount : decimal_to_minor (codes " 1,250.5 ") (codes "kes") ≡ ok (codes "125050")
unfolding decimal_to_minor before_dot after_dot after_dot_all trim_end trim_start minor_exponent
    digits_value to_string to_upper
typed_amount = refl

too_precise : decimal_to_minor (codes "12.5") (codes "JPY") ≡ err precision_error
unfolding decimal_to_minor before_dot after_dot after_dot_all trim_end trim_start minor_exponent
    digits_value to_string to_upper
too_precise = refl

no_number : decimal_to_minor (codes "1.2.3") (codes "KES") ≡ err type_error
unfolding decimal_to_minor before_dot after_dot after_dot_all trim_end trim_start minor_exponent
    digits_value to_string to_upper
no_number = refl

-- ===== src/Amounts/Compare.antt =====
-- web/src/lib/money.ts: the sign and the order of texts of minor units.
use wealthboard.Base.{
  not, if◌then◌else◌, Text, ℤ, pos, negsuc, ltb_ℤ, eqb_ℤ, Result, ok, ◌>>=◌, ◌>>◌, throw_if,
  type_error,
}
use wealthboard.Decimal.{strip_minus}
use wealthboard.Adapter.Entries.{integer}
use wealthboard.Amounts.{is_minor_units}

-- `minorSign`
unfoldable pub minor_sign : Text → Result ℤ
unfolding is_minor_units integer
minor_sign minor = do
  throw_if (not (is_minor_units minor)) type_error
  v ← integer minor
  ok (if eqb_ℤ v (pos 0) then pos 0 else if ltb_ℤ v (pos 0) then negsuc 0 else pos 1)

-- `absMinor`
abbrev pub abs_minor : Text → Text
abs_minor minor = strip_minus minor

-- `compareMinor`
unfoldable pub compare_minor : Text → Text → Result ℤ
unfolding integer
compare_minor a b = do
  x ← integer a
  y ← integer b
  ok (if eqb_ℤ x y then pos 0 else if ltb_ℤ x y then negsuc 0 else pos 1)

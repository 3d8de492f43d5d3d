-- ===== src/Money.antt =====
-- web/src/lib/money.ts: exact money texts. An amount is a text of minor units; a currency fixes how
-- many decimals its major unit has. What `Intl.NumberFormat` prints is not modelled.
use wealthboard.Base.{ℕ, List, [], ◌∷◌, if◌then◌else◌, Text, codes, member, to_upper}

abbrev pub exponent_zero : List Text
exponent_zero = codes "BIF" ∷ codes "JPY" ∷ codes "RWF" ∷ codes "UGX" ∷ []

abbrev pub exponent_three : List Text
exponent_three = codes "BHD" ∷ codes "KWD" ∷ codes "OMR" ∷ []

-- `minorExponent`
unfoldable pub minor_exponent : Text → ℕ
unfolding member to_upper
minor_exponent currency =
    let code = to_upper currency in
    if member code exponent_zero then 0 else if member code exponent_three then 3 else 2

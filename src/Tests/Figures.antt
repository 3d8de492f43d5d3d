-- ===== src/Tests/Figures.antt =====
-- The decimal theorems at concrete inputs.
use wealthboard.Base.{
  ◌≡◌, ◌+◌, ◌≤◌, ◌<◌, ◌*◌, ◌-◌, ◌^◌, ℕ, ℤ, pos, negsuc, ◌-ℤ◌, ◌*ℤ◌, magnitude, signed, is_negative,
  ok, codes, arith,
}
use wealthboard.Decimal.{div_round, to_scaled, from_scaled, major_to_minor, minor_to_major}
use wealthboard.Decimal.Rounding.{div_round_nearest}
use wealthboard.Decimal.Exact.{to_scaled-from_scaled_cut, major_to_minor-minor_to_major}

div_round_nearest_example :
    (q : ℤ) × (div_round (negsuc 24) (pos 10) ≡ ok q)
    × (magnitude (negsuc 24 -ℤ q *ℤ pos 10) * 2 ≤ magnitude (pos 10))
    × (magnitude (negsuc 24) * 2 < magnitude (q *ℤ pos 10) * 2 + magnitude (pos 10))
div_round_nearest_example = div_round_nearest (negsuc 24) (pos 10) (omega arith)

to_scaled-from_scaled_cut_example :
    (k : ℕ) × (r : ℕ) × (to_scaled (from_scaled (negsuc 1234567890123) 2)
      ≡ ok (signed (is_negative (negsuc 1234567890123)) (k * 10 ^ (12 - 2))))
    × (magnitude (negsuc 1234567890123) ≡ k * 10 ^ (12 - 2) + r)
    × (r < 10 ^ (12 - 2))
to_scaled-from_scaled_cut_example = to_scaled-from_scaled_cut (negsuc 1234567890123) 2 (omega arith)

major_to_minor-minor_to_major_example :
    major_to_minor (minor_to_major (negsuc 12344) (codes "KWD")) (codes "KWD") ≡ ok (negsuc 12344)
major_to_minor-minor_to_major_example = major_to_minor-minor_to_major (negsuc 12344) (codes "KWD")

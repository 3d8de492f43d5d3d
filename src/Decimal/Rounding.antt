-- ===== src/Decimal/Rounding.antt =====
-- `divRound` of decimal.ts.
use wealthboard.Base.{
  ℕ, zero, suc, ◌+◌, ◌*◌, ◌/◌, ◌≤◌, ◌<◌, ◌≡◌, Bool, true, false, arith, ℤ, pos, negsuc, magnitude,
  signed, ◌*ℤ◌, ◌-ℤ◌, ok,
}
use wealthboard.Decimal.{rounded, div_round, signs_differ}

-- The quotient is the nearest one, and a tie goes up.
half_up :
    (x y : ℕ)
    → 0 < y
    → let q = (x * 2 + y) / (y * 2) in (q * y * 2 ≤ x * 2 + y) × (x * 2 + y < q * y * 2 + y * 2)
half_up x y h = (grind arith, grind arith)

-- A quotient q of a by b with the sign of a / b, close to a / b by its magnitude.
near :
    (a b : ℤ) (m : ℕ)
    → m * magnitude b * 2 ≤ magnitude a * 2 + magnitude b
    → magnitude a * 2 < m * magnitude b * 2 + magnitude b
    → magnitude (a -ℤ signed (signs_differ a b) m *ℤ b) * 2 ≤ magnitude b
unfolding ◌-ℤ◌ ◌*ℤ◌
near (pos x) (pos y) m h k = ground arith
near (pos x) (negsuc y) zero h k = ground arith
near (pos x) (negsuc y) (suc m) h k = ground arith
near (negsuc x) (pos y) zero h k = ground arith
near (negsuc x) (pos y) (suc m) h k = ground arith
near (negsuc x) (negsuc y) m h k = ground arith

magnitude-signed-mul : (s : Bool) (m : ℕ) (b : ℤ) → magnitude (signed s m *ℤ b) ≡ m * magnitude b
unfolding ◌*ℤ◌
magnitude-signed-mul true zero (pos y) = ground arith
magnitude-signed-mul true zero (negsuc y) = ground arith
magnitude-signed-mul true (suc m) (pos y) = ground arith
magnitude-signed-mul true (suc m) (negsuc y) = ground arith
magnitude-signed-mul false m (pos y) = ground arith
magnitude-signed-mul false m (negsuc y) = ground arith

-- For every divisor but zero `divRound` returns a quotient that is off by at most a half, and a tie
-- goes away from zero: what is left below the quotient is less than a half.
pub div_round_nearest :
    (a b : ℤ)
    → 0 < magnitude b
    → (q : ℤ) × (div_round a b ≡ ok q)
      × (magnitude (a -ℤ q *ℤ b) * 2 ≤ magnitude b)
      × (magnitude a * 2 < magnitude (q *ℤ b) * 2 + magnitude b)
unfolding div_round rounded
div_round_nearest a b h =
    let m = (magnitude a * 2 + magnitude b) / (magnitude b * 2) in
    let (low, high) = half_up (magnitude a) (magnitude b) h in
    (
      rounded a b,
      ground arith,
      near a b m low (omega arith),
      rw (magnitude-signed-mul (signs_differ a b) m b) (omega arith),
    )

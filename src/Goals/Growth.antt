-- ===== src/Goals/Growth.antt =====
-- `project` of engine.ts, for different starts and payments.
use wealthboard.Base.{
  ℕ, zero, suc, ◌+◌, ◌*◌, ◌/◌, ◌≤◌, ◌≡◌, refl, true, arith, ℤ, pos, negsuc, magnitude, signed,
  pos_part, neg_part, ◌+ℤ◌, ◌*ℤ◌, ◌≤ℤ◌, int_laws,
}
use native.Mathlib.Nat.{mul-le-mul_right}
use wealthboard.Decimal.{rounded}
use wealthboard.Goals.{grow, project}

half_mono : (x y d : ℕ) → x ≤ y → (x * 2 + d) / (d * 2) ≤ (y * 2 + d) / (d * 2)
half_mono x y d h = grind arith

signed-pos : (n m : ℕ) → signed true n ≤ℤ pos m
signed-pos zero m = ground arith
signed-pos (suc n) m = ground arith

signed-anti : (n m : ℕ) → n ≤ m → signed true m ≤ℤ signed true n
signed-anti zero m h = signed-pos m 0
signed-anti (suc n) zero h = absurd (omega arith)
signed-anti (suc n) (suc m) h = omega arith

-- Rounding by a positive divisor is monotone.
pub rounded_mono : (a b : ℤ) (d : ℕ) → a ≤ℤ b → rounded a (pos (suc d)) ≤ℤ rounded b (pos (suc d))
unfolding rounded
rounded_mono (pos x) (pos y) d h = omega (arith, half_mono x y (suc d) (omega arith))
rounded_mono (pos x) (negsuc y) d h = absurd (omega arith)
rounded_mono (negsuc x) (pos y) d h =
    signed-pos ((suc x * 2 + suc d) / (suc d * 2)) ((y * 2 + suc d) / (suc d * 2))
rounded_mono (negsuc x) (negsuc y) d h =
    signed-anti ((suc y * 2 + suc d) / (suc d * 2)) ((suc x * 2 + suc d) / (suc d * 2))
      (half_mono (suc y) (suc x) (suc d) (omega arith))

pub mul_parts :
    (a : ℤ) (k : ℕ)
    → (pos_part (a *ℤ pos k) ≡ pos_part a * k) × (neg_part (a *ℤ pos k) ≡ neg_part a * k)
unfolding ◌*ℤ◌
mul_parts (pos x) k = (ground arith, ground arith)
mul_parts (negsuc x) k = (ground arith, ground arith)

pub mul_mono : (a b : ℤ) (k : ℕ) → a ≤ℤ b → a *ℤ pos k ≤ℤ b *ℤ pos k
mul_mono a b k h =
    let (ap_, an) = mul_parts a k in
    let (bp, bn) = mul_parts b k in omega (arith, mul-le-mul_right k h)

pub +ℤ_mono : (a b c d : ℤ) → a ≤ℤ b → c ≤ℤ d → a +ℤ c ≤ℤ b +ℤ d
+ℤ_mono a b c d h k = omega int_laws

pub nonnegative : (x : ℤ) → pos 0 ≤ℤ x → x ≡ pos (magnitude x)
nonnegative (pos x) h = refl
nonnegative (negsuc x) h = absurd (omega arith)

pub grow_mono :
    (v w p q bps : ℤ) → pos 0 ≤ℤ pos 120000 +ℤ bps → v ≤ℤ w → p ≤ℤ q → grow v p bps ≤ℤ grow w q bps
unfolding grow
grow_mono v w p q bps r h k =
    let f = magnitude (pos 120000 +ℤ bps) in
    let e : pos 120000 +ℤ bps ≡ pos f = nonnegative (pos 120000 +ℤ bps) r in
    rw e (
      +ℤ_mono (rounded (v *ℤ pos f) (pos 120000)) (rounded (w *ℤ pos f) (pos 120000)) p q
        (rounded_mono (v *ℤ pos f) (w *ℤ pos f) 119999 (mul_mono v w f h)) k)

-- At a yearly rate not below -120000 basis points, a goal that starts with at least as much and is
-- paid at least as much each month has at least as much in the end.
pub project_mono :
    (n : ℕ) (v w p q bps : ℤ)
    → pos 0 ≤ℤ pos 120000 +ℤ bps
    → v ≤ℤ w
    → p ≤ℤ q
    → project v p bps n ≤ℤ project w q bps n
unfolding project
project_mono zero v w p q bps r h k = h
project_mono (suc n) v w p q bps r h k =
    project_mono n (grow v p bps) (grow w q bps) p q bps r (grow_mono v w p q bps r h k) k

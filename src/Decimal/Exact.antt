-- ===== src/Decimal/Exact.antt =====
-- `fromScaled`, `minorToMajor` and their readers in decimal.ts, on the last printed place.
use native.Mathlib.Nat.{
  pow-suc, pow-zero, one-le-pow, mod-eq_of_lt, mul-add-mod_self_right, mul-mod_left, mul_assoc,
  mul-div_left, div-eq_of_lt-le,
}
use Prim.Native.Nat.add
use wealthboard.Base.{
  ℕ, zero, suc, ◌+◌, ◌-◌, ◌*◌, ◌/◌, ◌%◌, ◌^◌, ◌≤◌, ◌<◌, ◌≡◌, refl, sym, ap, ap₂, ◌∙◌, ◌⊎◌, inl, inr,
  Bool, true, false, arith, Bool-cases, if◌then◌else◌, Text, digits_value, ℤ, pos, negsuc,
  magnitude, signed, is_negative, quot, ◌*ℤ◌, ok, member, to_upper,
}
use wealthboard.Money.{minor_exponent, exponent_zero, exponent_three}
use wealthboard.Decimal.{
  scale, to_scaled, from_scaled, fraction_digits, minor_to_major, major_to_minor, rounded,
}
use wealthboard.Decimal.RoundTrip.{from_scaled-value, fraction_digits-value}

pow-add : (a b : ℕ) → 10 ^ (a + b) ≡ 10 ^ a * 10 ^ b
pow-add zero b = rw (add.zero, pow-zero) (omega arith)
pow-add (suc a) b =
    rw (add.suc, pow-suc 10 (a + b), pow-suc 10 a)
      (omega (arith, ap (λ (t : ℕ). t * 10) (pow-add a b)))

signed-magnitude : (v : ℤ) → signed (is_negative v) (magnitude v) ≡ v
signed-magnitude (pos n) = refl
signed-magnitude (negsuc n) = refl

-- A scaled number that is printed with d places reads back cut to d places, towards zero: as a
-- multiple of 10^(12 - d) that is less than one such unit below its magnitude.
pub to_scaled-from_scaled_cut :
    (v : ℤ) (d : ℕ)
    → d ≤ 12
    → (k : ℕ) × (r : ℕ) × (to_scaled (from_scaled v d)
        ≡ ok (signed (is_negative v) (k * 10 ^ (12 - d))))
      × (magnitude v ≡ k * 10 ^ (12 - d) + r)
      × (r < 10 ^ (12 - d))
to_scaled-from_scaled_cut v d h =
    let n = magnitude v in
    let f = digits_value 0 (fraction_digits n d) in
    let (r, small, e) = fraction_digits-value n d h in
    let twelve : d + (12 - d) ≡ 12 = omega arith in
    let p : 10 ^ d * 10 ^ (12 - d) ≡ scale =
      sym (pow-add d (12 - d)) ∙ ap (λ (m : ℕ). 10 ^ m) twelve in
    let whole : n / scale * scale ≡ n / scale * 10 ^ d * 10 ^ (12 - d) =
      omega (arith, ap (λ (t : ℕ). n / scale * t) p) in
    (
      n / scale * 10 ^ d + f,
      r,
      from_scaled-value v d h ∙ ap (λ (m : ℕ). ok (signed (is_negative v) m)) (omega arith),
      omega arith,
      small,
    )

pub minor_exponent_cases :
    (c : Text) → (minor_exponent c ≡ 0) ⊎ (minor_exponent c ≡ 2) ⊎ (minor_exponent c ≡ 3)
unfolding minor_exponent
minor_exponent_cases c = elim (Bool-cases (member (to_upper c) exponent_zero)) [
  | inl z ↦ rw z (inl refl)
  | inr nz ↦ elim (Bool-cases (member (to_upper c) exponent_three)) [
    | inl t ↦ rw (nz, t) (inr (inr refl))
    | inr nt ↦ rw (nz, nt) (inr (inl refl))
  ]
]

unit_multiple : (k j r q : ℕ) → k * q ≡ j * q + r → r < q → r ≡ 0
unit_multiple k j r q e h =
    sym (mod-eq_of_lt h)
    ∙ sym (mul-add-mod_self_right j q r)
    ∙ ap (λ (n : ℕ). n % q) (sym e)
    ∙ mul-mod_left k q

-- A multiple of the unit of the last printed place is printed exactly.
exact :
    (v : ℤ) (d k : ℕ)
    → d ≤ 12
    → magnitude v ≡ k * 10 ^ (12 - d)
    → to_scaled (from_scaled v d) ≡ ok v
exact v d k h e =
    let (j, r, read, split, small) = to_scaled-from_scaled_cut v d h in
    let none_left : r ≡ 0 = unit_multiple k j r (10 ^ (12 - d)) (sym e ∙ split) small in
    read ∙ ap (λ (m : ℕ). ok (signed (is_negative v) m)) (omega arith) ∙ ap ok (signed-magnitude v)

magnitude-mul_pos : (m : ℤ) (q : ℕ) → magnitude (m *ℤ pos q) ≡ magnitude m * q
unfolding ◌*ℤ◌
magnitude-mul_pos (pos x) q = ground arith
magnitude-mul_pos (negsuc x) zero = ground arith
magnitude-mul_pos (negsuc x) (suc q) = ground arith

signed-mul_pos : (m : ℤ) (k q : ℕ) → k ≡ magnitude m * q → signed (is_negative m) k ≡ m *ℤ pos q
unfolding ◌*ℤ◌
signed-mul_pos (pos x) k q h = ground arith
signed-mul_pos (negsuc x) zero q h = ground arith
signed-mul_pos (negsuc x) (suc k) q h = ground arith

mul_pos-signed : (m : ℤ) (q : ℕ) → m *ℤ pos q ≡ signed (is_negative m) (magnitude m * q)
mul_pos-signed m q = sym (signed-mul_pos m (magnitude m * q) q refl)

signed-zero : (b : Bool) (n : ℕ) → n ≡ 0 → signed b n ≡ pos 0
signed-zero false n h = ap pos h
signed-zero true n h = ap (signed true) h

signed-mul : (b : Bool) (n p : ℕ) → signed b n *ℤ pos p ≡ signed b (n * p)
signed-mul false n p = mul_pos-signed (pos n) p
signed-mul true zero p =
    mul_pos-signed (pos 0) p ∙ ap pos (omega arith) ∙ sym (signed-zero true (0 * p) (omega arith))
signed-mul true (suc n) p = mul_pos-signed (negsuc n) p

pub mul_pos_mul_pos : (m : ℤ) (p q : ℕ) → m *ℤ pos q *ℤ pos p ≡ m *ℤ pos (q * p)
mul_pos_mul_pos m p q =
    ap (λ (u : ℤ). u *ℤ pos p) (mul_pos-signed m q)
    ∙ signed-mul (is_negative m) (magnitude m * q) p
    ∙ ap (signed (is_negative m)) (mul_assoc (magnitude m) q p)
    ∙ sym (mul_pos-signed m (q * p))

is_negative-mul_pos : (m : ℤ) (q : ℕ) → 0 < q → is_negative (m *ℤ pos q) ≡ is_negative m
is_negative-mul_pos (pos x) q h = ap is_negative (mul_pos-signed (pos x) q)
is_negative-mul_pos (negsuc x) (suc q) h =
    ap is_negative (mul_pos-signed (negsuc x) (suc q)) ∙ ground arith
is_negative-mul_pos (negsuc x) zero h = elim h [ ]

quot-mul_pos : (m : ℤ) (p q : ℕ) → 0 < p → 0 < q → quot (m *ℤ pos (q * p)) p ≡ m *ℤ pos q
unfolding quot
quot-mul_pos m p q h k =
    ap₂ signed (is_negative-mul_pos m (q * p) (grind arith)) (
      ap (λ (n : ℕ). n / p) (magnitude-mul_pos m (q * p) ∙ sym (mul_assoc (magnitude m) q p))
      ∙ mul-div_left (magnitude m * q) h)
    ∙ sym (mul_pos-signed m q)

half_exact : (x s : ℕ) → 0 < s → (x * s * 2 + s) / (s * 2) ≡ x
half_exact x s h = div-eq_of_lt-le {k = x} (s * 2) (grind arith) (grind arith)

same_if : (b : Bool) → (if b then true else false) ≡ b
same_if true = refl
same_if false = refl

pub rounded-mul_pos : (m : ℤ) (s : ℕ) → 0 < s → rounded (m *ℤ pos s) (pos s) ≡ m
unfolding rounded
rounded-mul_pos m s h =
    ap₂ signed (rw (is_negative-mul_pos m s h) (same_if (is_negative m)))
      (ap (λ (n : ℕ). (n * 2 + s) / (s * 2)) (magnitude-mul_pos m s) ∙ half_exact (magnitude m) s h)
    ∙ signed-magnitude m

minor_to_major_lem :
    (m : ℤ) (c : Text)
    → minor_to_major m c
      ≡ from_scaled (quot (m *ℤ pos scale) (10 ^ minor_exponent c)) (minor_exponent c)
unfolding minor_to_major
minor_to_major_lem m c = refl

major_to_minor_lem :
    (t c : Text) {v : ℤ}
    → to_scaled t ≡ ok v
    → major_to_minor t c ≡ ok (rounded (v *ℤ pos (10 ^ minor_exponent c)) (pos scale))
unfolding major_to_minor
major_to_minor_lem t c h = rw h

-- The print of an amount of minor units is read back as the same amount, in every currency.
pub major_to_minor-minor_to_major :
    (minor : ℤ) (currency : Text)
    → major_to_minor (minor_to_major minor currency) currency ≡ ok minor
major_to_minor-minor_to_major minor currency =
    let d = minor_exponent currency in
    let q = 10 ^ (12 - d) in
    let twelve : (12 - d) + d ≡ 12 = omega (arith, minor_exponent_cases currency) in
    let p : q * 10 ^ d ≡ scale = sym (pow-add (12 - d) d) ∙ ap (λ (m : ℕ). 10 ^ m) twelve in
    let v = minor *ℤ pos q in
    let quotient : quot (minor *ℤ pos scale) (10 ^ d) ≡ v =
      ap (λ (s : ℕ). quot (minor *ℤ pos s) (10 ^ d)) (sym p)
      ∙ quot-mul_pos minor (10 ^ d) q (one-le-pow d 10 (omega arith))
          (one-le-pow (12 - d) 10 (omega arith)) in
    ap (λ (t : Text). major_to_minor t currency)
      (minor_to_major_lem minor currency ∙ ap (λ (u : ℤ). from_scaled u d) quotient)
    ∙ major_to_minor_lem (from_scaled v d) currency
        (exact v d (magnitude minor) (omega arith) (magnitude-mul_pos minor q))
    ∙ ap ok (
        ap (λ (u : ℤ). rounded u (pos scale))
          (mul_pos_mul_pos minor (10 ^ d) q ∙ ap (λ (s : ℕ). minor *ℤ pos s) p)
        ∙ rounded-mul_pos minor scale (omega arith))

-- ===== src/Decimal/RoundTrip.antt =====
-- The digits of `fromScaled` in decimal.ts, as `toScaled` reads them.
use Prim.Native.Nat.add
use wealthboard.Base.{
  ℕ, zero, suc, ◌+◌, ◌-◌, ◌*◌, ◌/◌, ◌%◌, ◌^◌, ◌≤◌, ◌<◌, ◌≡◌, refl, sym, ap, ap₂, ◌∙◌, subst, ==_iff,
  inl, inr, Bool, true, false, not, ◌&&◌, arith, [], ◌∷◌, ◌++◌, append_assoc, append-nil, ◌≢◌, ◌==◌,
  if◌then◌else◌, Bool-cases, length, take, replicate, length-append, length-replicate,
  length-take-le, take-append_length, Text, all_digits, digits_value, to_string, pad_start, ℤ,
  magnitude, signed, is_negative, Result, ok, err, ◌>>=◌,
}
use wealthboard.Base.Digits.{
  digits_value-to_string, to_string-all_digits, to_string-ne-nil, length-to_string-le,
  pad_start-all_digits, digits_value-pad_start, length-pad_start, digits_value-take,
  take-all_digits, append_zeros-all_digits, digits_value-append_zeros,
}
use wealthboard.Decimal.{
  scale, scale_digits, big_int, before_dot, after_dot, starts_minus, strip_minus, pad_slice,
  to_scaled, strip_zeros, fraction_digits, with_point, is_zero_text, from_scaled,
}

-- The zeros that `strip_zeros` drops can be put back.
pub strip_zeros_lem : (s : Text) → (k : ℕ) × (s ≡ strip_zeros s ++ replicate k 48)
unfolding strip_zeros
strip_zeros_lem [] = (0, refl)
strip_zeros_lem (c ∷ s) = go (strip_zeros s) (strip_zeros_lem s)
  where
    go :
        (t : Text)
        → (k : ℕ) × (s ≡ t ++ replicate k 48)
        → (k : ℕ) × (c ∷ s
            ≡ (elim t as (λ _. Text) [ [] ↦ if c == 48 then [] else c ∷ [] | d ∷ t' ↦ c ∷ d ∷ t' ])
              ++ replicate k 48)
    go [] (k, e) = elim (Bool-cases (c == 48)) [
      | inl z ↦ (suc k, ground arith)
      | inr nz ↦ (k, ground arith)
    ]
    go (d ∷ t') (k, e) = (k, ap (◌∷◌ c) e)

replicate-append : (j k : ℕ) → replicate {A = ℕ} (j + k) 48 ≡ replicate j 48 ++ replicate k 48
replicate-append zero k = rw add.zero
replicate-append (suc j) k = rw (add.suc) (ap (◌∷◌ 48) (replicate-append j k))

take-append : (n : ℕ) (s t u : Text) → length (s ++ t) ≡ n → take n ((s ++ t) ++ u) ≡ s ++ t
take-append n s t u e =
    ap (λ (m : ℕ). take m ((s ++ t) ++ u)) (sym e) ∙ take-append_length (s ++ t) u

-- To pad what was stripped gives the digits back, with zeros up to the width.
pad_slice-strip_zeros :
    (n : ℕ) (s : Text)
    → length s ≤ n
    → pad_slice n (strip_zeros s) ≡ s ++ replicate (n - length s) 48
pad_slice-strip_zeros n s h =
    let (k, e) = strip_zeros_lem s in
    let st = strip_zeros s in
    let len : length s ≡ length st + k =
      ap length e
      ∙ length-append st (replicate k 48)
      ∙ ap (λ (m : ℕ). length st + m) (length-replicate k 48) in
    let gap = n - length s in
    let back : st ++ replicate n 48 ≡ (s ++ replicate gap 48) ++ replicate (n - k - gap) 48 =
      ap (λ (m : ℕ). st ++ replicate m 48) (omega arith)
      ∙ ap (λ (z : Text). st ++ z) (replicate-append k (gap + (n - k - gap)))
      ∙ sym (append_assoc st (replicate k 48) (replicate (gap + (n - k - gap)) 48))
      ∙ ap (λ (z : Text). z ++ replicate (gap + (n - k - gap)) 48) (sym e)
      ∙ ap (λ (z : Text). s ++ z) (replicate-append gap (n - k - gap))
      ∙ sym (append_assoc s (replicate gap 48) (replicate (n - k - gap) 48)) in
    ap (take n) back
    ∙ take-append n s (replicate gap 48) (replicate (n - k - gap) 48) (
        length-append s (replicate gap 48)
        ∙ ap (λ (m : ℕ). length s + m) (length-replicate gap 48)
        ∙ omega arith)

pub before_dot-digits : (s t : Text) → all_digits s ≡ true → before_dot (s ++ 46 ∷ t) ≡ s
unfolding before_dot
before_dot-digits [] t h = refl
before_dot-digits (c ∷ s) t h = ground (arith, before_dot-digits s t)

pub before_dot_self : (s : Text) → all_digits s ≡ true → before_dot s ≡ s
unfolding before_dot
before_dot_self [] h = refl
before_dot_self (c ∷ s) h = ground (arith, before_dot_self s)

pub after_dot-digits : (s t : Text) → all_digits s ≡ true → after_dot (s ++ 46 ∷ t) ≡ before_dot t
unfolding after_dot
after_dot-digits [] t h = refl
after_dot-digits (c ∷ s) t h = ground (arith, after_dot-digits s t)

pub after_dot_self : (s : Text) → all_digits s ≡ true → after_dot s ≡ []
unfolding after_dot
after_dot_self [] h = refl
after_dot_self (c ∷ s) h = ground (arith, after_dot_self s)

pub strip_zeros-all_digits : (s : Text) → all_digits s ≡ true → all_digits (strip_zeros s) ≡ true
unfolding strip_zeros
strip_zeros-all_digits [] h = refl
strip_zeros-all_digits (c ∷ s) h = go (strip_zeros s) (strip_zeros-all_digits s (ground arith))
  where
    go :
        (t : Text)
        → all_digits t ≡ true
        → all_digits
            (elim t as (λ _. Text) [ [] ↦ if c == 48 then [] else c ∷ [] | d ∷ t' ↦ c ∷ d ∷ t' ])
          ≡ true
    go [] k = ground arith
    go (d ∷ t') k = ground arith

-- The text behind the sign, read as the two runs of digits that it holds.
abbrev unsigned : Text → Result ℕ
unsigned body = do
  whole ← big_int (before_dot body)
  frac ← big_int (pad_slice scale_digits (after_dot body))
  ok (whole * scale + frac)

bind_signed :
    (m k : Result ℕ) (b : Bool) (n : ℕ)
    → (m >>= λ w. k >>= λ f. ok (w * scale + f)) ≡ ok n
    → (m >>= λ w. k >>= λ f. ok (signed b (w * scale + f))) ≡ ok (signed b n)
bind_signed (ok w) (ok f) b n h = cc
bind_signed (ok w) (err e) b n h = cc
bind_signed (err e) k b n h = cc

to_scaled-signed :
    (s : Text) (n : ℕ)
    → unsigned (strip_minus s) ≡ ok n
    → to_scaled s ≡ ok (signed (starts_minus s) n)
unfolding to_scaled
to_scaled-signed s n h =
    bind_signed (big_int (before_dot (strip_minus s)))
      (big_int (pad_slice scale_digits (after_dot (strip_minus s)))) (starts_minus s) n h

big_int-digits : (s : Text) → all_digits s ≡ true → big_int s ≡ ok (digits_value 0 s)
unfolding big_int
big_int-digits s h = rw h

unsigned-digits :
    (w t : Text)
    → all_digits w ≡ true
    → all_digits t ≡ true
    → all_digits (pad_slice scale_digits t) ≡ true
    → unsigned (w ++ with_point t)
      ≡ ok (digits_value 0 w * scale + digits_value 0 (pad_slice scale_digits t))
unsigned-digits w [] hw ht hp = rw (
  append-nil w,
  before_dot_self w hw,
  after_dot_self w hw,
  big_int-digits w hw,
  big_int-digits (pad_slice scale_digits []) hp,
)
unsigned-digits w (c ∷ t) hw ht hp = rw (
  before_dot-digits w (c ∷ t) hw,
  after_dot-digits w (c ∷ t) hw,
  before_dot_self (c ∷ t) ht,
  big_int-digits w hw,
  big_int-digits (pad_slice scale_digits (c ∷ t)) hp,
)

digits-no_minus : (w t : Text) → all_digits w ≡ true → w ≢ [] → starts_minus (w ++ t) ≡ false
digits-no_minus [] t h k = absurd (k refl)
digits-no_minus (c ∷ w) t h k = ground arith

-- A text of digits that reads "0" stands for zero.
zero-unsigned : (s : Text) (n : ℕ) → is_zero_text s ≡ true → unsigned s ≡ ok n → n ≡ 0
unfolding big_int before_dot after_dot
zero-unsigned [] n z h = cc
zero-unsigned (c ∷ []) n z h =
    cc (subst (λ (k : ℕ). unsigned (k ∷ []) ≡ ok n) ((==_iff c 48).0 z) h)
zero-unsigned (c ∷ d ∷ s) n z h = cc

-- The sign of `fromScaled` is read back, also where a zero drops it.
to_scaled-sign :
    (b : Bool) (out : Text) (n : ℕ)
    → starts_minus out ≡ false
    → unsigned out ≡ ok n
    → to_scaled (if b && not (is_zero_text out) then 45 ∷ out else out) ≡ ok (signed b n)
to_scaled-sign false out n s h = to_scaled-signed out n (rw s h) ∙ rw s
to_scaled-sign true out n s h = elim (Bool-cases (is_zero_text out)) [
  | inl z ↦ rw z (to_scaled-signed out n (rw s h) ∙ rw (s, zero-unsigned out n z h))
  | inr nz ↦ rw nz (to_scaled-signed (45 ∷ out) n h)
]

-- The padded digits of a fraction, of which the first are printed.
abbrev padded : ℕ → Text
padded n = pad_start 12 (to_string (n % scale))

length-padded : (n : ℕ) → length (padded n) ≡ 12
length-padded n =
    length-pad_start 12 (to_string (n % scale)) (length-to_string-le (n % scale) 11 (omega arith))

padded-all_digits : (n : ℕ) → all_digits (padded n) ≡ true
padded-all_digits n =
    pad_start-all_digits 12 (to_string (n % scale)) (to_string-all_digits (n % scale))

fraction_digits_lem : (n d : ℕ) → fraction_digits n d ≡ take d (padded n)
unfolding fraction_digits
fraction_digits_lem n d = refl

fraction_digits-all_digits : (n d : ℕ) → all_digits (fraction_digits n d) ≡ true
fraction_digits-all_digits n d =
    rw (fraction_digits_lem n d) (take-all_digits d (padded n) (padded-all_digits n))

length-fraction_digits : (n d : ℕ) → d ≤ 12 → length (fraction_digits n d) ≡ d
length-fraction_digits n d h =
    rw (fraction_digits_lem n d) (length-take-le d (padded n) (omega (arith, length-padded n)))

pad_slice-fraction_digits :
    (n d : ℕ)
    → d ≤ 12
    → pad_slice scale_digits (strip_zeros (fraction_digits n d))
      ≡ fraction_digits n d ++ replicate (12 - d) 48
pad_slice-fraction_digits n d h =
    pad_slice-strip_zeros 12 (fraction_digits n d) (omega (arith, length-fraction_digits n d h))
    ∙ ap (λ (m : ℕ). fraction_digits n d ++ replicate (12 - m) 48) (length-fraction_digits n d h)

-- The unsigned print of a magnitude.
abbrev printed : ℕ → ℕ → Text
printed n d = to_string (n / scale) ++ with_point (strip_zeros (fraction_digits n d))

printed-value :
    (n d : ℕ)
    → d ≤ 12
    → unsigned (printed n d)
      ≡ ok (n / scale * scale + digits_value 0 (fraction_digits n d) * 10 ^ (12 - d))
printed-value n d h =
    unsigned-digits (to_string (n / scale)) (strip_zeros (fraction_digits n d))
      (to_string-all_digits (n / scale))
      (strip_zeros-all_digits (fraction_digits n d) (fraction_digits-all_digits n d))
      (rw (pad_slice-fraction_digits n d h)
        (append_zeros-all_digits (fraction_digits n d) (12 - d) (fraction_digits-all_digits n d)))
    ∙ rw (
      digits_value-to_string,
      pad_slice-fraction_digits n d h,
      digits_value-append_zeros (fraction_digits n d) (12 - d),
    )

from_scaled_lem :
    (v : ℤ) (d : ℕ)
    → let out = printed (magnitude v) d in
      from_scaled v d ≡ (if is_negative v && not (is_zero_text out) then 45 ∷ out else out)
unfolding from_scaled
from_scaled_lem v d = refl

-- What a printed number reads as: the whole part, and the printed digits of the fraction.
pub from_scaled-value :
    (v : ℤ) (d : ℕ)
    → d ≤ 12
    → to_scaled (from_scaled v d)
      ≡ ok (
          signed (is_negative v) (
            magnitude v / scale * scale
            + digits_value 0 (fraction_digits (magnitude v) d) * 10 ^ (12 - d)))
from_scaled-value v d h =
    ap to_scaled (from_scaled_lem v d)
    ∙ to_scaled-sign (is_negative v) (printed (magnitude v) d) _
        (digits-no_minus (to_string (magnitude v / scale)) _
          (to_string-all_digits (magnitude v / scale)) (to_string-ne-nil (magnitude v / scale)))
        (printed-value (magnitude v) d h)

-- The printed digits are the fraction, cut to that many places.
pub fraction_digits-value :
    (n d : ℕ)
    → d ≤ 12
    → (r : ℕ) × (r < 10 ^ (12 - d))
      × (n % scale ≡ digits_value 0 (fraction_digits n d) * 10 ^ (12 - d) + r)
fraction_digits-value n d h =
    let (r, small, e) =
      digits_value-take d (padded n) (padded-all_digits n) (omega (arith, length-padded n)) in
    (
      r,
      subst (λ (m : ℕ). r < 10 ^ (m - d)) (length-padded n) small,
      sym (digits_value-pad_start 12 (to_string (n % scale)) ∙ digits_value-to_string (n % scale))
          ∙ e
          ∙ ap₂ (λ (t : Text) (m : ℕ). digits_value 0 t * 10 ^ (m - d) + r)
              (sym (fraction_digits_lem n d)) (length-padded n),
    )

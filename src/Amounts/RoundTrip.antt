-- ===== src/Amounts/RoundTrip.antt =====
-- web/src/lib/money.ts: what `decimalToMinor` reads of what `minorToDecimal` writes.
use wealthboard.Base.{
  ℕ, zero, suc, ◌+◌, ◌-◌, ◌≤◌, [], ◌∷◌, ◌++◌, Bool, true, false, not, ◌&&◌, ◌==◌, if◌then◌else◌,
  every, length, Text, is_digit, all_digits, digits_value, ok, ◌>>=◌, ◌≡◌, refl, sym, ap, ◌∙◌,
  arith, append-nil, codes, same, same→eq, take-append-drop, length-drop, pad_start,
}
use wealthboard.Base.Digits.{
  pad_start-all_digits, digits_value-pad_start, drop-all_digits, take-all_digits,
}
use wealthboard.Decimal.{starts_minus, strip_minus, with_point}
use wealthboard.Adapter.Entries.{is_empty, is_minor_text}
use wealthboard.Money.{minor_exponent}
use wealthboard.Amounts.{
  trim_zeros, sign_text, are_zeros, with_decimals, without_decimals, written, minor_to_decimal,
  signed_text, decimal_to_minor, whole_part, frac_part,
}
use wealthboard.Amounts.Clean.{length-pad_start-le, is_empty-take}
use wealthboard.Amounts.Readback.{decimal_to_minor-decimal_text}

-- Where a sign is left out, the number is zero.
signed_text-unsigned :
    (negative b : Bool) (v : ℕ)
    → (b ≡ true → v ≡ 0)
    → signed_text (negative && not b) v ≡ signed_text negative v
signed_text-unsigned true true v h = rw (h refl) refl
signed_text-unsigned true false v h = refl
signed_text-unsigned false b v h = refl

zeros-value : (s : Text) → every (λ c. c == 48) s ≡ true → digits_value 0 s ≡ 0
unfolding digits_value
zeros-value [] h = refl
zeros-value (c ∷ s) h = let e : c ≡ 48 = ground arith in rw e (zeros-value s (ground arith))

are_zeros-value : (s : Text) → are_zeros s ≡ true → digits_value 0 s ≡ 0
are_zeros-value s h = zeros-value s (ground arith)

with_point-suc : (f : Text) (e : ℕ) → length f ≡ suc e → with_point f ≡ 46 ∷ f
with_point-suc [] e h = absurd (omega arith)
with_point-suc (d ∷ f) e h = refl

decimal_to_minor-with_decimals :
    (currency : Text) (negative : Bool) (e : ℕ) (p : Text)
    → minor_exponent currency ≡ suc e
    → all_digits p ≡ true
    → suc e + 1 ≤ length p
    → decimal_to_minor (with_decimals (suc e) negative p) currency
      ≡ ok (signed_text negative (digits_value 0 p))
decimal_to_minor-with_decimals currency negative e p x d l =
    let w = whole_part (suc e) p in
    let f = frac_part (suc e) p in
    let joined : w ++ f ≡ p = take-append-drop (length p - suc e) p in
    let long : length f ≡ suc e = length-drop (length p - suc e) p ∙ omega arith in
    let b = are_zeros (w ++ f) in
    let zero_value : b ≡ true → digits_value 0 p ≡ 0 =
      λ z. ap (digits_value 0) (sym joined) ∙ are_zeros-value (w ++ f) z in
    let read =
      decimal_to_minor-decimal_text currency (negative && not b) w f
        (is_empty-take (length p - suc e) p (omega arith) (omega arith))
        (take-all_digits (length p - suc e) p d) (drop-all_digits (length p - suc e) p d)
        (long ∙ sym x) in
    ap (λ (t : Text). decimal_to_minor (sign_text (negative && not b) ++ (w ++ t)) currency)
      (sym (with_point-suc f e long))
    ∙ read
    ∙ ap (λ (v : Text). ok (signed_text (negative && not b) (digits_value 0 v))) joined
    ∙ ap ok (signed_text-unsigned negative b (digits_value 0 p) zero_value)

decimal_to_minor-without_decimals :
    (currency : Text) (negative : Bool) (p : Text)
    → minor_exponent currency ≡ zero
    → is_empty p ≡ false
    → all_digits p ≡ true
    → decimal_to_minor (without_decimals negative p) currency
      ≡ ok (signed_text negative (digits_value 0 p))
decimal_to_minor-without_decimals currency negative p x n d =
    let b = same p (codes "0") in
    let zero_value : b ≡ true → digits_value 0 p ≡ 0 =
      λ z. ap (digits_value 0) (same→eq p (codes "0") z) ∙ are_zeros-value (codes "0") refl in
    ap (λ (t : Text). decimal_to_minor (sign_text (negative && not b) ++ t) currency)
      (sym (append-nil p))
    ∙ decimal_to_minor-decimal_text currency (negative && not b) p [] n d refl (sym x)
    ∙ ap (λ (v : Text). ok (signed_text (negative && not b) (digits_value 0 v))) (append-nil p)
    ∙ ap ok (signed_text-unsigned negative b (digits_value 0 p) zero_value)

decimal_to_minor-written :
    (currency : Text) (negative : Bool) (p : Text) (e : ℕ)
    → minor_exponent currency ≡ e
    → is_empty p ≡ false
    → all_digits p ≡ true
    → decimal_to_minor (written e negative p) currency
      ≡ ok (signed_text negative (digits_value 0 p))
decimal_to_minor-written currency negative p zero x n d =
    decimal_to_minor-without_decimals currency negative p x n d
decimal_to_minor-written currency negative p (suc e) x n d =
    decimal_to_minor-with_decimals currency negative e (pad_start (suc e + 1) p) x
      (pad_start-all_digits (suc e + 1) p d) (length-pad_start-le (suc e + 1) p)
    ∙ ap (λ (v : ℕ). ok (signed_text negative v)) (digits_value-pad_start (suc e + 1) p)

trim_zeros-all_digits : (s : Text) → all_digits s ≡ true → all_digits (trim_zeros s) ≡ true
unfolding trim_zeros
trim_zeros-all_digits [] h = refl
trim_zeros-all_digits (c ∷ []) h = h
trim_zeros-all_digits (c ∷ d ∷ s) h =
    let ih = trim_zeros-all_digits (d ∷ s) (ground arith) in ground arith

is_empty-trim_zeros : (s : Text) → is_empty s ≡ false → is_empty (trim_zeros s) ≡ false
unfolding trim_zeros
is_empty-trim_zeros [] h = h
is_empty-trim_zeros (c ∷ []) h = h
is_empty-trim_zeros (c ∷ d ∷ s) h = let ih = is_empty-trim_zeros (d ∷ s) refl in ground arith

leading_zero :
    (c d : ℕ) (s : Text)
    → (c == 48 && is_digit d) ≡ true
    → digits_value 0 (d ∷ s) ≡ digits_value 0 (c ∷ d ∷ s)
unfolding digits_value
leading_zero c d s h = let e : c ≡ 48 = ground arith in rw e refl

either_value :
    (b : Bool) (s t : Text)
    → (b ≡ true → digits_value 0 s ≡ digits_value 0 t)
    → digits_value 0 (if b then s else t) ≡ digits_value 0 t
either_value true s t h = h refl
either_value false s t h = refl

digits_value-trim_zeros : (s : Text) → digits_value 0 (trim_zeros s) ≡ digits_value 0 s
unfolding trim_zeros
digits_value-trim_zeros [] = refl
digits_value-trim_zeros (c ∷ []) = refl
digits_value-trim_zeros (c ∷ d ∷ s) =
    either_value (c == 48 && is_digit d) (trim_zeros (d ∷ s)) (c ∷ d ∷ s)
      (λ h. digits_value-trim_zeros (d ∷ s) ∙ leading_zero c d s h)

-- When a text is one of minor units, `minorToDecimal` returns a decimal text that `decimalToMinor` reads back in the same currency, as the minor units without leading zeros and zero without a sign.
pub decimal_to_minor-minor_to_decimal :
    (minor currency : Text)
    → is_minor_text minor ≡ true
    → (minor_to_decimal minor currency >>= λ d. decimal_to_minor d currency)
      ≡ ok (signed_text (starts_minus minor) (digits_value 0 (strip_minus minor)))
unfolding minor_to_decimal
decimal_to_minor-minor_to_decimal minor currency h =
    let digits = strip_minus minor in
    let filled : is_empty digits ≡ false = ground arith in
    let numeric : all_digits digits ≡ true = ground arith in
    rw h (
      decimal_to_minor-written currency (starts_minus minor) (trim_zeros digits)
        (minor_exponent currency) refl (is_empty-trim_zeros digits filled)
        (trim_zeros-all_digits digits numeric)
      ∙ ap (λ (v : ℕ). ok (signed_text (starts_minus minor) v)) (digits_value-trim_zeros digits))

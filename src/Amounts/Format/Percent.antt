-- ===== src/Amounts/Format/Percent.antt =====
-- web/src/lib/money.ts: what `percentToBps` reads of the decimal text that `formatBps` passes on.
use wealthboard.Base.{
  ℕ, ◌+◌, ◌-◌, ◌≤◌, [], ◌∷◌, ◌++◌, Bool, true, false, ltb, if◌then◌else◌, every, drop, take, length,
  replicate, Text, all_digits, digits_value, to_string, pad_start, ℤ, pos, negsuc, neg, magnitude,
  is_negative, ok, ◌≡◌, refl, sym, ap, ◌∙◌, arith, append_assoc, take-append-drop, length-drop,
  length-append, length-replicate,
}
use wealthboard.Base.Digits.{
  digits_value-to_string, to_string-all_digits, pad_start-all_digits, digits_value-pad_start,
  drop-all_digits, take-all_digits,
}
use wealthboard.Decimal.{strip_zeros, with_point}
use wealthboard.Decimal.RoundTrip.{strip_zeros_lem, strip_zeros-all_digits}
use wealthboard.Adapter.Entries.{is_empty}
use wealthboard.Adapter.Goals.{percent_to_bps, drop_percent}
use wealthboard.Amounts.{sign_text}
use wealthboard.Amounts.Format.{bps_decimal}
use wealthboard.Amounts.Clean.{is_plain, trim-plain, length-pad_start-le, is_empty-take}
use wealthboard.Amounts.Readback.{
  decimal_text, before_dot-decimal_text, after_dot-decimal_text, starts_minus-sign_text,
  strip_minus-sign_text, is_decimal-decimal_text, is_plain-digits, every-append, with_point-plain,
  sign_text-plain,
}

pub drop_percent-plain : (s : Text) → every is_plain s ≡ true → drop_percent s ≡ s
unfolding drop_percent
drop_percent-plain [] h = refl
drop_percent-plain (c ∷ s) h = let ih = drop_percent-plain s (ground arith) in ground arith

-- Digits of which at most two stand behind the point, read as hundredths.
percent_to_bps-decimal_text :
    (negative : Bool) (w f g : Text) (k : ℕ)
    → is_empty w ≡ false
    → all_digits w ≡ true
    → all_digits f ≡ true
    → g ≡ f ++ replicate k 48
    → length g ≡ 2
    → percent_to_bps (sign_text negative ++ decimal_text w f)
      ≡ ok (if negative then neg (pos (digits_value 0 (w ++ g))) else pos (digits_value 0 (w ++ g)))
unfolding percent_to_bps
percent_to_bps-decimal_text negative [] f g k n d h e l = absurd (ground arith)
percent_to_bps-decimal_text negative (c ∷ s) f g k n d h e l =
    let len : length f + k ≡ 2 =
      ap (λ (m : ℕ). length f + m) (sym (length-replicate {A = ℕ} k 48))
      ∙ sym (length-append f (replicate k 48))
      ∙ ap length (sym e)
      ∙ l in
    let short : ltb 2 (length f) ≡ false = ground arith in
    let gap : 2 - length f ≡ k = omega arith in
    let plain =
      sign_text-plain negative (decimal_text (c ∷ s) f)
        (every-append (c ∷ s) (with_point f) (is_plain-digits (c ∷ s) d) (with_point-plain f h)) in
    rw
      (
        trim-plain (sign_text negative ++ decimal_text (c ∷ s) f) plain,
        drop_percent-plain (sign_text negative ++ decimal_text (c ∷ s) f) plain,
        is_decimal-decimal_text negative c s f (ground arith) (ground arith) h,
        strip_minus-sign_text negative c (s ++ with_point f) (ground arith),
        starts_minus-sign_text negative c (s ++ with_point f) (ground arith),
        before_dot-decimal_text (c ∷ s) f d,
        after_dot-decimal_text (c ∷ s) f d h,
        short,
        gap,
        e,
      )
      (rw (append_assoc s f (replicate k 48)) refl)

from_magnitude :
    (b : ℤ) → (if is_negative b then neg (pos (magnitude b)) else pos (magnitude b)) ≡ b
from_magnitude (pos n) = refl
from_magnitude (negsuc n) = refl

-- `percentToBps` reads the decimal text that `formatBps` passes to `formatPercent` back, for either sign.
pub percent_to_bps-bps_decimal : (bps : ℤ) → percent_to_bps (bps_decimal bps) ≡ ok bps
unfolding bps_decimal
percent_to_bps-bps_decimal bps =
    let n = magnitude bps in
    let p = pad_start 3 (to_string n) in
    let d : all_digits p ≡ true = pad_start-all_digits 3 (to_string n) (to_string-all_digits n) in
    let l : 3 ≤ length p = length-pad_start-le 3 (to_string n) in
    let w = take (length p - 2) p in
    let g = drop (length p - 2) p in
    let (k, e) = strip_zeros_lem g in
    let value : digits_value 0 (w ++ g) ≡ n =
      ap (digits_value 0) (take-append-drop (length p - 2) p)
      ∙ digits_value-pad_start 3 (to_string n)
      ∙ digits_value-to_string n in
    percent_to_bps-decimal_text (is_negative bps) w (strip_zeros g) g k
      (is_empty-take (length p - 2) p (omega arith) (omega arith))
      (take-all_digits (length p - 2) p d)
      (strip_zeros-all_digits g (drop-all_digits (length p - 2) p d)) e
      (length-drop (length p - 2) p ∙ omega arith)
    ∙ ap (λ (v : ℕ). ok (if is_negative bps then neg (pos v) else pos v)) value
    ∙ ap ok (from_magnitude bps)

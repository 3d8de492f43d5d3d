-- ===== src/Amounts/Readback.antt =====
-- web/src/lib/money.ts: how `decimalToMinor` reads a sign, digits and a point with digits.
use wealthboard.Base.{
  ℕ, ◌-◌, [], ◌∷◌, ◌++◌, Bool, true, false, not, ◌&&◌, ◌||◌, ltb, every, take, length, replicate,
  Text, is_digit, all_digits, digits_value, ok, ◌≡◌, refl, sym, ap, ◌∙◌, arith, append-nil,
}
use wealthboard.Decimal.{before_dot, after_dot, starts_minus, strip_minus, with_point}
use wealthboard.Decimal.RoundTrip.{
  before_dot-digits, before_dot_self, after_dot-digits, after_dot_self,
}
use wealthboard.Adapter.Entries.{is_empty}
use wealthboard.Adapter.Goals.{is_decimal, has_dot, after_dot_all}
use wealthboard.Money.{minor_exponent}
use wealthboard.Amounts.{
  sign_text, is_decimal_string, pad_end, signed_text, read_decimal, decimal_to_minor,
}
use wealthboard.Amounts.Clean.{is_plain, clean-plain}

-- Digits, and a point with digits behind it, if there are any.
abbrev pub decimal_text : Text → Text → Text
decimal_text whole frac = whole ++ with_point frac

after_dot_all-digits : (s t : Text) → all_digits s ≡ true → after_dot_all (s ++ 46 ∷ t) ≡ t
unfolding after_dot_all
after_dot_all-digits [] t h = refl
after_dot_all-digits (c ∷ s) t h = ground (arith, after_dot_all-digits s t)

has_dot-digits : (s : Text) → all_digits s ≡ true → has_dot s ≡ false
has_dot-digits [] h = refl
has_dot-digits (c ∷ s) h = ground (arith, has_dot-digits s)

pub before_dot-decimal_text : (w f : Text) → all_digits w ≡ true → before_dot (decimal_text w f) ≡ w
before_dot-decimal_text w [] h = ap before_dot (append-nil w) ∙ before_dot_self w h
before_dot-decimal_text w (d ∷ f) h = before_dot-digits w (d ∷ f) h

pub after_dot-decimal_text :
    (w f : Text) → all_digits w ≡ true → all_digits f ≡ true → after_dot (decimal_text w f) ≡ f
after_dot-decimal_text w [] h g = ap after_dot (append-nil w) ∙ after_dot_self w h
after_dot-decimal_text w (d ∷ f) h g = after_dot-digits w (d ∷ f) h ∙ before_dot_self (d ∷ f) g

-- The part of the test for a decimal text that is about the point.
point-decimal_text :
    (w f : Text)
    → all_digits w ≡ true
    → all_digits f ≡ true
    → (not (has_dot (decimal_text w f))
        || not (is_empty (after_dot_all (decimal_text w f)))
          && all_digits (after_dot_all (decimal_text w f)))
      ≡ true
point-decimal_text w [] h g = rw (append-nil w, has_dot-digits w h) refl
point-decimal_text w (d ∷ f) h g = rw (after_dot_all-digits w (d ∷ f) h, g) (ground arith)

pub starts_minus-sign_text :
    (negative : Bool) (c : ℕ) (s : Text)
    → is_digit c ≡ true
    → starts_minus (sign_text negative ++ c ∷ s) ≡ negative
starts_minus-sign_text true c s h = refl
starts_minus-sign_text false c s h = ground arith

pub strip_minus-sign_text :
    (negative : Bool) (c : ℕ) (s : Text)
    → is_digit c ≡ true
    → strip_minus (sign_text negative ++ c ∷ s) ≡ c ∷ s
strip_minus-sign_text true c s h = refl
strip_minus-sign_text false c s h = ground arith

pub is_decimal-decimal_text :
    (negative : Bool) (c : ℕ) (s f : Text)
    → is_digit c ≡ true
    → all_digits s ≡ true
    → all_digits f ≡ true
    → is_decimal (sign_text negative ++ decimal_text (c ∷ s) f) ≡ true
unfolding is_decimal
is_decimal-decimal_text negative c s f h d g =
    let w : all_digits (c ∷ s) ≡ true = rw (h, d) refl in
    rw
      (
        strip_minus-sign_text negative c (s ++ with_point f) h,
        before_dot-decimal_text (c ∷ s) f w,
        h,
        d,
        point-decimal_text (c ∷ s) f w g,
      )
      refl

take_self : (f : Text) → take (length f) f ≡ f
take_self [] = refl
take_self (c ∷ f) = ap (◌∷◌ c) (take_self f)

replicate-zero : (n : ℕ) → n ≡ 0 → replicate {A = ℕ} n 48 ≡ []
replicate-zero n h = rw h refl

pad_end-take : (exp : ℕ) (f : Text) → length f ≡ exp → pad_end exp (take exp f) ≡ f
pad_end-take exp f h =
    let e : take exp f ≡ f = ap (λ (n : ℕ). take n f) (sym h) ∙ take_self f in
    rw (e, replicate-zero (exp - length f) (omega arith)) (append-nil f)

read_decimal-decimal_text :
    (exp : ℕ) (negative : Bool) (c : ℕ) (s f : Text)
    → is_digit c ≡ true
    → all_digits s ≡ true
    → all_digits f ≡ true
    → length f ≡ exp
    → read_decimal (sign_text negative ++ decimal_text (c ∷ s) f) exp
      ≡ ok (signed_text negative (digits_value 0 ((c ∷ s) ++ f)))
unfolding read_decimal is_decimal_string
read_decimal-decimal_text exp negative c s f h d g l =
    let w : all_digits (c ∷ s) ≡ true = rw (h, d) refl in
    let long : ltb exp (length f) ≡ false = ground arith in
    rw
      (
        is_decimal-decimal_text negative c s f h d g,
        strip_minus-sign_text negative c (s ++ with_point f) h,
        starts_minus-sign_text negative c (s ++ with_point f) h,
        before_dot-decimal_text (c ∷ s) f w,
        after_dot-decimal_text (c ∷ s) f w g,
        long,
        pad_end-take exp f l,
      )
      refl

pub is_plain-digits : (s : Text) → all_digits s ≡ true → every is_plain s ≡ true
is_plain-digits [] h = refl
is_plain-digits (c ∷ s) h = ground (arith, is_plain-digits s)

pub every-append :
    (s t : Text)
    → every is_plain s ≡ true
    → every is_plain t ≡ true
    → every is_plain (s ++ t) ≡ true
every-append [] t h g = g
every-append (c ∷ s) t h g = ground (arith, every-append s t)

pub with_point-plain : (f : Text) → all_digits f ≡ true → every is_plain (with_point f) ≡ true
with_point-plain [] h = refl
with_point-plain (d ∷ f) h = is_plain-digits (d ∷ f) h

pub sign_text-plain :
    (b : Bool) (s : Text) → every is_plain s ≡ true → every is_plain (sign_text b ++ s) ≡ true
sign_text-plain true s h = h
sign_text-plain false s h = h

-- The text of a sign, digits and as many decimals as the currency has is read as their number.
pub decimal_to_minor-decimal_text :
    (currency : Text) (negative : Bool) (w f : Text)
    → is_empty w ≡ false
    → all_digits w ≡ true
    → all_digits f ≡ true
    → length f ≡ minor_exponent currency
    → decimal_to_minor (sign_text negative ++ decimal_text w f) currency
      ≡ ok (signed_text negative (digits_value 0 (w ++ f)))
unfolding decimal_to_minor
decimal_to_minor-decimal_text currency negative [] f n w g l = absurd (ground arith)
decimal_to_minor-decimal_text currency negative (c ∷ s) f n w g l =
    rw
      (clean-plain _ (
        sign_text-plain negative (decimal_text (c ∷ s) f)
          (every-append (c ∷ s) (with_point f) (is_plain-digits (c ∷ s) w) (with_point-plain f g))))
      (read_decimal-decimal_text (minor_exponent currency) negative c s f (ground arith)
        (ground arith) g l)

-- ===== src/Base/Digits.antt =====
-- Laws of decimal digits: a number is read back from its print, padding adds nothing, and a run of
-- digits splits into a high and a low part.
use Prim.Native.Nat.{ℕ, zero, suc, ◌+◌, ◌-◌, ◌*◌, ◌/◌, ◌%◌, ◌^◌, ◌≤◌, ◌<◌}
use mathlib.Core.Path.{◌≡◌, refl, ap, sym, ◌∙◌, subst}
use mathlib.Core.Logic.{◌≢◌, ◌⊎◌, inl, inr}
use mathlib.Core.Bool.{true}
use mathlib.Core.List.{[], ◌∷◌, ◌++◌, cons-ne-nil}
use native.Mathlib.Nat.{pow-suc, pow-zero}
use native.Mathlib.Omega.{arith}
use wealthboard.Base.Tests.{ltb, leb, Bool-cases}
use wealthboard.Base.Lists.{
  length, replicate, take, drop, length-append, length-replicate, take-append-drop, length-drop,
}
use wealthboard.Base.Strings.{Text, all_digits, digits_value, show_digits, to_string, pad_start}

pub digits_value-append :
    (acc : ℕ) (xs ys : Text) → digits_value acc (xs ++ ys) ≡ digits_value (digits_value acc xs) ys
unfolding digits_value
digits_value-append acc [] ys = refl
digits_value-append acc (x ∷ xs) ys = digits_value-append (acc * 10 + (x - 48)) xs ys

-- What stands in front counts by the length of what follows.
pub digits_value_shift :
    (acc : ℕ) (xs : Text) → digits_value acc xs ≡ acc * 10 ^ length xs + digits_value 0 xs
unfolding digits_value
digits_value_shift acc [] = rw pow-zero (omega arith)
digits_value_shift acc (x ∷ xs) = omega (
  arith,
  digits_value_shift (acc * 10 + (x - 48)) xs,
  digits_value_shift (0 * 10 + (x - 48)) xs,
  ap (λ (t : ℕ). acc * t) (pow-suc 10 (length xs)),
)

pub all_digits-append :
    (xs ys : Text) → all_digits xs ≡ true → all_digits ys ≡ true → all_digits (xs ++ ys) ≡ true
all_digits-append [] ys h k = k
all_digits-append (x ∷ xs) ys h k = ground (arith, all_digits-append xs ys)

digit_below : (d p v : ℕ) → d ≤ 9 → v < p → d * p + v < p * 10
digit_below d p v h k = grind arith

digit-le : (c : ℕ) → leb c 57 ≡ true → c - 48 ≤ 9
digit-le c h = ground arith

pub digits_value-lt : (xs : Text) → all_digits xs ≡ true → digits_value 0 xs < 10 ^ length xs
unfolding digits_value
digits_value-lt [] h = rw pow-zero (omega arith)
digits_value-lt (x ∷ xs) h = omega (
  arith,
  digit_below (x - 48) (10 ^ length xs) (digits_value 0 xs) (digit-le x (ground arith))
      (digits_value-lt xs (ground arith)),
  digits_value_shift (0 * 10 + (x - 48)) xs,
  pow-suc 10 (length xs),
)

pub show_digits-all_digits :
    (f n : ℕ) (rest : Text) → all_digits rest ≡ true → all_digits (show_digits f n rest) ≡ true
unfolding show_digits
show_digits-all_digits zero n rest h = h
show_digits-all_digits (suc f) n rest h = elim (Bool-cases (ltb n 10)) [
  | inl small ↦ rw small (ground arith)
  | inr large ↦ rw large (show_digits-all_digits f (n / 10) _ (ground arith))
]

digits_value-show_digits :
    (f n : ℕ) (rest : Text) → n < f → digits_value 0 (show_digits f n rest) ≡ digits_value n rest
unfolding show_digits digits_value
digits_value-show_digits zero n rest h = absurd (omega arith)
digits_value-show_digits (suc f) n rest h = elim (Bool-cases (ltb n 10)) [
  | inl small ↦ rw small (ap (λ k. digits_value k rest) (omega arith))
  | inr large ↦ rw large (
      digits_value-show_digits f (n / 10) _ (ground arith)
      ∙ ap (λ k. digits_value k rest) (omega arith))
]

-- A number is what its decimal print denotes.
pub digits_value-to_string : (n : ℕ) → digits_value 0 (to_string n) ≡ n
unfolding to_string digits_value
digits_value-to_string n = digits_value-show_digits (suc n) n [] (omega arith)

pub to_string-all_digits : (n : ℕ) → all_digits (to_string n) ≡ true
unfolding to_string
to_string-all_digits n = show_digits-all_digits (suc n) n [] refl

tenth_below : (n j : ℕ) → n < 10 ^ suc (suc j) → n / 10 < 10 ^ suc j
tenth_below n j h = omega (arith, pow-suc 10 (suc j))

show_digits-ne-nil : (f n c : ℕ) (rest : Text) → show_digits f n (c ∷ rest) ≢ []
unfolding show_digits
show_digits-ne-nil zero n c rest = cons-ne-nil c rest
show_digits-ne-nil (suc f) n c rest = elim (Bool-cases (ltb n 10)) [
  | inl small ↦ rw small (cons-ne-nil (48 + n) (c ∷ rest))
  | inr large ↦ rw large (show_digits-ne-nil f (n / 10) (48 + n % 10) (c ∷ rest))
]

pub to_string-ne-nil : (n : ℕ) → to_string n ≢ []
unfolding to_string show_digits
to_string-ne-nil n = elim (Bool-cases (ltb n 10)) [
  | inl small ↦ rw small (cons-ne-nil (48 + n) [])
  | inr large ↦ rw large (show_digits-ne-nil n (n / 10) (48 + n % 10) [])
]

ℕ-cases : (k : ℕ) → (k ≡ 0) ⊎ ((j : ℕ) × (k ≡ suc j))
ℕ-cases zero = inl refl
ℕ-cases (suc j) = inr (j, refl)

length-show_digits-le :
    (f n k : ℕ) (rest : Text) → n < 10 ^ suc k → length (show_digits f n rest) ≤ suc k + length rest
unfolding show_digits
length-show_digits-le zero n k rest h = omega arith
length-show_digits-le (suc f) n k rest h = elim (Bool-cases (ltb n 10)) [
  | inl small ↦ rw small (omega arith)
  | inr large ↦ rw large (elim (ℕ-cases k) [
    | inl e ↦ absurd (ground (arith, ap (λ (j : ℕ). 10 ^ suc j) e))
    | inr (j, e) ↦ omega (
      arith,
      length-show_digits-le f (n / 10) j ((48 + n % 10) ∷ rest)
          (tenth_below n j (subst (λ i. n < 10 ^ suc i) e h)),
    )
  ])
]

pub length-to_string-le : (n k : ℕ) → n < 10 ^ suc k → length (to_string n) ≤ suc k
unfolding to_string
length-to_string-le n k h = omega (arith, length-show_digits-le (suc n) n k [] h)

zeros-all_digits : (k : ℕ) → all_digits (replicate k 48) ≡ true
zeros-all_digits zero = refl
zeros-all_digits (suc k) = zeros-all_digits k

digits_value-zeros : (k : ℕ) → digits_value 0 (replicate k 48) ≡ 0
unfolding digits_value
digits_value-zeros zero = refl
digits_value-zeros (suc k) = digits_value-zeros k

-- Zeros in front change nothing, and zeros behind multiply.
pub digits_value-pad_start :
    (w : ℕ) (xs : Text) → digits_value 0 (pad_start w xs) ≡ digits_value 0 xs
unfolding pad_start
digits_value-pad_start w xs =
    digits_value-append 0 (replicate (w - length xs) 48) xs
    ∙ ap (λ k. digits_value k xs) (digits_value-zeros (w - length xs))

pub digits_value-append_zeros :
    (xs : Text) (k : ℕ) → digits_value 0 (xs ++ replicate k 48) ≡ digits_value 0 xs * 10 ^ k
digits_value-append_zeros xs k =
    rw
      (
        digits_value-append,
        digits_value_shift (digits_value 0 xs) (replicate k 48),
        length-replicate,
        digits_value-zeros,
      )
      (omega arith)

pub pad_start-all_digits :
    (w : ℕ) (xs : Text) → all_digits xs ≡ true → all_digits (pad_start w xs) ≡ true
unfolding pad_start
pad_start-all_digits w xs h =
    all_digits-append (replicate (w - length xs) 48) xs (zeros-all_digits (w - length xs)) h

pub append_zeros-all_digits :
    (xs : Text) (k : ℕ) → all_digits xs ≡ true → all_digits (xs ++ replicate k 48) ≡ true
append_zeros-all_digits xs k h = all_digits-append xs (replicate k 48) h (zeros-all_digits k)

pub length-pad_start : (w : ℕ) (xs : Text) → length xs ≤ w → length (pad_start w xs) ≡ w
unfolding pad_start
length-pad_start w xs h =
    rw (length-append (replicate (w - length xs) 48) xs, length-replicate) (omega arith)

pub drop-all_digits : (n : ℕ) (xs : Text) → all_digits xs ≡ true → all_digits (drop n xs) ≡ true
drop-all_digits zero xs h = h
drop-all_digits (suc n) [] h = h
drop-all_digits (suc n) (x ∷ xs) h = drop-all_digits n xs (ground arith)

pub take-all_digits : (n : ℕ) (xs : Text) → all_digits xs ≡ true → all_digits (take n xs) ≡ true
take-all_digits zero xs h = refl
take-all_digits (suc n) [] h = h
take-all_digits (suc n) (x ∷ xs) h = ground (arith, take-all_digits n xs)

-- The first digits of a run are its quotient by a power of ten.
pub digits_value-take :
    (n : ℕ) (xs : Text)
    → all_digits xs ≡ true
    → n ≤ length xs
    → (r : ℕ) × (r < 10 ^ (length xs - n))
      × (digits_value 0 xs ≡ digits_value 0 (take n xs) * 10 ^ (length xs - n) + r)
digits_value-take n xs h k = (
  digits_value 0 (drop n xs),
  rw (← length-drop n xs) (digits_value-lt (drop n xs) (drop-all_digits n xs h)),
  ap (digits_value 0) (sym (take-append-drop n xs))
      ∙ digits_value-append 0 (take n xs) (drop n xs)
      ∙ digits_value_shift (digits_value 0 (take n xs)) (drop n xs)
      ∙ ap (λ (l : ℕ). digits_value 0 (take n xs) * 10 ^ l + digits_value 0 (drop n xs))
          (length-drop n xs),
)

-- ===== src/Base/Decimals.antt =====
-- The decimal print of a number, digit by digit.
use Prim.Native.Nat.{ℕ, zero, suc, ◌+◌, ◌-◌, ◌/◌, ◌%◌, ◌≤◌, ◌<◌}
use mathlib.Core.Path.{◌≡◌, refl, ap, sym, ◌∙◌}
use mathlib.Core.Logic.{inl, inr}
use mathlib.Core.List.{[], ◌∷◌, ◌++◌, append_assoc}
use native.Mathlib.Omega.{arith}
use wealthboard.Base.Tests.{ltb, Bool-cases}
use wealthboard.Base.Lists.{length, length-append}
use wealthboard.Base.Strings.{Text, show_digits, to_string, pad_start}

show_digits-append : (f n : ℕ) (rest : Text) → show_digits f n rest ≡ show_digits f n [] ++ rest
unfolding show_digits
show_digits-append zero n rest = refl
show_digits-append (suc f) n rest = elim (Bool-cases (ltb n 10)) [
  | inl small ↦ rw small refl
  | inr large ↦ rw large (
      show_digits-append f (n / 10) ((48 + n % 10) ∷ rest)
      ∙ sym (append_assoc (show_digits f (n / 10) []) ((48 + n % 10) ∷ []) rest)
      ∙ ap (λ (t : Text). t ++ rest) (sym (show_digits-append f (n / 10) ((48 + n % 10) ∷ []))))
]

-- Any fuel above the number gives the same print.
show_digits_fuel :
    (f g n : ℕ) (rest : Text) → n < f → n < g → show_digits f n rest ≡ show_digits g n rest
unfolding show_digits
show_digits_fuel zero g n rest h k = absurd (omega arith)
show_digits_fuel (suc f) zero n rest h k = absurd (omega arith)
show_digits_fuel (suc f) (suc g) n rest h k = elim (Bool-cases (ltb n 10)) [
  | inl small ↦ rw small refl
  | inr large ↦
      rw large (show_digits_fuel f g (n / 10) ((48 + n % 10) ∷ rest) (ground arith) (ground arith))
]

to_string_digit : (n : ℕ) → n < 10 → to_string n ≡ (48 + n) ∷ []
unfolding to_string show_digits
to_string_digit n h = ground arith

show_digits_tens :
    (f n : ℕ) (rest : Text)
    → 10 ≤ n
    → show_digits (suc f) n rest ≡ show_digits f (n / 10) ((48 + n % 10) ∷ rest)
unfolding show_digits
show_digits_tens f n rest h = ground arith

to_string_tens : (n : ℕ) → 10 ≤ n → to_string n ≡ to_string (n / 10) ++ (48 + n % 10) ∷ []
unfolding to_string
to_string_tens n h =
    show_digits_tens n n [] h
    ∙ show_digits-append n (n / 10) ((48 + n % 10) ∷ [])
    ∙ ap (λ (t : Text). t ++ (48 + n % 10) ∷ [])
        (show_digits_fuel n (suc (n / 10)) (n / 10) [] (omega arith) (omega arith))

to_string_hundreds :
    (n : ℕ) → 100 ≤ n → to_string n ≡ to_string (n / 100) ++ (48 + n / 10 % 10) ∷ (48 + n % 10) ∷ []
to_string_hundreds n h =
    let e : n / 10 / 10 ≡ n / 100 = omega arith in
    to_string_tens n (omega arith)
    ∙ ap (λ (t : Text). t ++ (48 + n % 10) ∷ [])
        (to_string_tens (n / 10) (omega arith)
          ∙ ap (λ (q : ℕ). to_string q ++ (48 + n / 10 % 10) ∷ []) e)
    ∙ append_assoc (to_string (n / 100)) ((48 + n / 10 % 10) ∷ []) ((48 + n % 10) ∷ [])

-- Nothing is padded in front of three digits.
pad_start_full : (w a : Text) → 1 ≤ length w → length a ≡ 2 → pad_start 3 (w ++ a) ≡ w ++ a
unfolding pad_start
pad_start_full w a h k =
    let l : 3 - length (w ++ a) ≡ 0 = omega (arith, length-append w a) in rw l refl

pub length-to_string : (n : ℕ) → 1 ≤ length (to_string n)
length-to_string n = elim (Bool-cases (ltb n 10)) [
  | inl small ↦ rw (to_string_digit n (ground arith)) (omega arith)
  | inr large ↦
      rw (to_string_tens n (ground arith))
        (omega (arith, length-append (to_string (n / 10)) ((48 + n % 10) ∷ [])))
]

pad_start_one : (a : ℕ) → pad_start 3 (a ∷ []) ≡ to_string 0 ++ 48 ∷ a ∷ []
unfolding pad_start to_string show_digits
pad_start_one a = refl

pad_start_two : (a b : ℕ) → pad_start 3 (a ∷ b ∷ []) ≡ to_string 0 ++ a ∷ b ∷ []
unfolding pad_start to_string show_digits
pad_start_two a b = refl

-- A number of hundredths, padded to three digits: its whole part and two digits.
pub pad_start-to_string :
    (n : ℕ)
    → pad_start 3 (to_string n) ≡ to_string (n / 100) ++ (48 + n / 10 % 10) ∷ (48 + n % 10) ∷ []
pad_start-to_string n = elim (Bool-cases (ltb n 10)) [
  | inl units ↦
      let d : n / 100 ≡ 0 = ground arith in
      let e : n / 10 % 10 ≡ 0 = ground arith in
      let f : n % 10 ≡ n = ground arith in
      rw (to_string_digit n (ground arith), d, e, f) (pad_start_one (48 + n))
  | inr more ↦ elim (Bool-cases (ltb n 100)) [
    | inl tens ↦
        let d : n / 100 ≡ 0 = ground arith in
        let e : n / 10 % 10 ≡ n / 10 = ground arith in
        rw (to_string_tens n (ground arith), to_string_digit (n / 10) (ground arith), d, e)
          (pad_start_two (48 + n / 10) (48 + n % 10))
    | inr hundreds ↦ rw (to_string_hundreds n (ground arith)) (
        pad_start_full (to_string (n / 100)) ((48 + n / 10 % 10) ∷ (48 + n % 10) ∷ [])
          (length-to_string (n / 100)) refl)
  ]
]

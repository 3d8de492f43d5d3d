-- ===== src/Base/Lists.antt =====
-- Lists measured by native numbers, under the library's names, and the Boolean list functions of
-- the program's language: `filter`, `find`, `some` and the stable `sort`.
use Prim.Native.Nat.{ℕ, zero, suc, ◌+◌, ◌-◌, ◌≤◌}
use mathlib.Core.Path.{◌≡◌, refl, ap, sym, subst}
use mathlib.Core.Logic.{◌⊎◌, inl, inr}
use mathlib.Core.Bool.{Bool, true, false, ◌&&◌, ◌||◌}
use mathlib.Core.List.{List, [], ◌∷◌, ◌++◌}
use mathlib.Core.Option.{Option, none, some}
use native.Mathlib.Omega.{arith}
use wealthboard.Base.Tests.{if◌then◌else◌, Bool-cases}

module _ {ℓ} {A : Type ℓ} where
  abbrev pub length : List A → ℕ
  length [] = 0
  length (x ∷ xs) = suc (length xs)

  abbrev pub get_elem? : List A → ℕ → Option A
  get_elem? [] i = none
  get_elem? (x ∷ xs) zero = some x
  get_elem? (x ∷ xs) (suc i) = get_elem? xs i

  abbrev pub take : ℕ → List A → List A
  take zero xs = []
  take (suc n) [] = []
  take (suc n) (x ∷ xs) = x ∷ take n xs

  abbrev pub drop : ℕ → List A → List A
  drop zero xs = xs
  drop (suc n) [] = []
  drop (suc n) (x ∷ xs) = drop n xs

  abbrev pub replicate : ℕ → A → List A
  replicate zero a = []
  replicate (suc n) a = a ∷ replicate n a

  abbrev pub last? : List A → Option A
  last? [] = none
  last? (x ∷ []) = some x
  last? (x ∷ y ∷ xs) = last? (y ∷ xs)

  -- `xs.filter(p)`
  abbrev pub keep : (A → Bool) → List A → List A
  keep p [] = []
  keep p (x ∷ xs) = if p x then x ∷ keep p xs else keep p xs

  -- `xs.find(p)`
  abbrev pub find : (A → Bool) → List A → Option A
  find p [] = none
  find p (x ∷ xs) = if p x then some x else find p xs

  -- `xs.some(p)`
  abbrev pub any : (A → Bool) → List A → Bool
  any p [] = false
  any p (x ∷ xs) = p x || any p xs

  -- `xs.every(p)`
  abbrev pub every : (A → Bool) → List A → Bool
  every p [] = true
  every p (x ∷ xs) = p x && every p xs

  -- `xs.sort(cmp)` is stable: an element goes in front of the first one that is not before it.
  abbrev pub insert_by : (A → A → Bool) → A → List A → List A
  insert_by before x [] = x ∷ []
  insert_by before x (y ∷ ys) = if before y x then y ∷ insert_by before x ys else x ∷ y ∷ ys

  abbrev pub sort_by : (A → A → Bool) → List A → List A
  sort_by before [] = []
  sort_by before (x ∷ xs) = insert_by before x (sort_by before xs)

  -- Every element has the property.
  abbrev pub All {κ} : (A → Type κ) → List A → Type κ
  All P [] = Unit
  All P (x ∷ xs) = P x × All P xs

module _ {ℓ} {A : Type ℓ} where
  pub length-append : (xs ys : List A) → length (xs ++ ys) ≡ length xs + length ys
  length-append [] ys = omega arith
  length-append (x ∷ xs) ys = omega (arith, length-append xs ys)

  pub length-replicate : (n : ℕ) (a : A) → length (replicate n a) ≡ n
  length-replicate zero a = refl
  length-replicate (suc n) a = ap suc (length-replicate n a)

  pub take-append_length : (xs ys : List A) → take (length xs) (xs ++ ys) ≡ xs
  take-append_length [] ys = refl
  take-append_length (x ∷ xs) ys = ap (◌∷◌ x) (take-append_length xs ys)

  pub drop-append_length : (xs ys : List A) → drop (length xs) (xs ++ ys) ≡ ys
  drop-append_length [] ys = refl
  drop-append_length (x ∷ xs) ys = drop-append_length xs ys

  pub keep-append : (p : A → Bool) (xs ys : List A) → keep p (xs ++ ys) ≡ keep p xs ++ keep p ys
  keep-append p [] ys = refl
  keep-append p (x ∷ xs) ys = ground (arith, keep-append p xs ys)

  pub take-append-drop : (n : ℕ) (xs : List A) → take n xs ++ drop n xs ≡ xs
  take-append-drop zero xs = refl
  take-append-drop (suc n) [] = refl
  take-append-drop (suc n) (x ∷ xs) = ap (◌∷◌ x) (take-append-drop n xs)

  pub length-drop : (n : ℕ) (xs : List A) → length (drop n xs) ≡ length xs - n
  length-drop zero xs = omega arith
  length-drop (suc n) [] = omega arith
  length-drop (suc n) (x ∷ xs) = omega (arith, length-drop n xs)

  pub length-take-le : (n : ℕ) (xs : List A) → n ≤ length xs → length (take n xs) ≡ n
  length-take-le zero xs h = refl
  length-take-le (suc n) [] h = absurd (omega arith)
  length-take-le (suc n) (x ∷ xs) h = ap suc (length-take-le n xs (omega arith))

pub data Empty {ℓ} : Type ℓ where

-- Membership by recursion, which proofs can take apart.
abbrev pub Member {ℓ} : {A : Type ℓ} → A → List A → Type ℓ
Member x [] = Empty {ℓ}
Member x (y ∷ ys) = (x ≡ y) ⊎ Member x ys

module _ {ℓ} {A : Type ℓ} where
  pub Member-All {κ} : (P : A → Type κ) (x : A) (xs : List A) → All P xs → Member x xs → P x
  Member-All P x [] h m = elim m [ ]
  Member-All P x (y ∷ ys) h (inl e) = subst P (sym e) h.0
  Member-All P x (y ∷ ys) h (inr m) = Member-All P x ys h.1 m

  pub Member-keep :
      (p : A → Bool) (x : A) (xs : List A) → p x ≡ true → Member x xs → Member x (keep p xs)
  Member-keep p x [] e m = elim m [ ]
  Member-keep p x (y ∷ ys) e (inl same) = rw (← same, e) (inl refl)
  Member-keep p x (y ∷ ys) e (inr m) = elim (Bool-cases (p y)) [
    | inl k ↦ rw k (inr (Member-keep p x ys e m))
    | inr k ↦ rw k (Member-keep p x ys e m)
  ]

  insert_by-Member_self :
      (before : A → A → Bool) (x : A) (ys : List A) → Member x (insert_by before x ys)
  insert_by-Member_self before x [] = inl refl
  insert_by-Member_self before x (y ∷ ys) = elim (Bool-cases (before y x)) [
    | inl k ↦ rw k (inr (insert_by-Member_self before x ys))
    | inr k ↦ rw k (inl refl)
  ]

  insert_by-Member :
      (before : A → A → Bool) (x z : A) (ys : List A)
      → Member z ys
      → Member z (insert_by before x ys)
  insert_by-Member before x z [] m = elim m [ ]
  insert_by-Member before x z (y ∷ ys) m = elim (Bool-cases (before y x)) [
    | inl k ↦ rw k (elim m [ inl e ↦ inl e | inr m' ↦ inr (insert_by-Member before x z ys m') ])
    | inr k ↦ rw k (inr m)
  ]

  pub sort_by-Member :
      (before : A → A → Bool) (z : A) (xs : List A) → Member z xs → Member z (sort_by before xs)
  sort_by-Member before z [] m = elim m [ ]
  sort_by-Member before z (x ∷ xs) (inl e) =
      subst (λ w. Member w (insert_by before x (sort_by before xs))) (sym e)
        (insert_by-Member_self before x (sort_by before xs))
  sort_by-Member before z (x ∷ xs) (inr m) =
      insert_by-Member before x z (sort_by before xs) (sort_by-Member before z xs m)

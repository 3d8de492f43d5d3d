-- ===== src/Engine/Order.antt =====
-- Laws of the stable sort and of sums over lists, for the ledgers that the engine keeps in order.
use wealthboard.Base.{
  ℕ, ◌≤◌, ◌≡◌, refl, ap, ◌∙◌, Bool, true, false, arith, Bool-cases, inl, inr, List, [], ◌∷◌,
  if◌then◌else◌, keep, insert_by, sort_by, All, ℤ, pos, ◌+ℤ◌, int_laws,
}
use wealthboard.Engine.Ledgers.{key_before}

-- The sum of `f` over a list.
unfoldable pub sum_over {ℓ} : {A : Type ℓ} → (A → ℤ) → List A → ℤ
sum_over f [] = pos 0
sum_over f (x ∷ xs) = f x +ℤ sum_over f xs

-- Each element is related to all that follow it.
abbrev pub Ascending {ℓ κ} : {A : Type ℓ} → (A → A → Type κ) → List A → Type κ
Ascending R [] = Unit
Ascending R (x ∷ xs) = All (R x) xs × Ascending R xs

module _ {ℓ κ} {A : Type ℓ} (P : A → Type κ) where
  pub All-keep : (p : A → Bool) (xs : List A) → All P xs → All P (keep p xs)
  All-keep p [] h = tt
  All-keep p (x ∷ xs) h = elim (Bool-cases (p x)) [
    | inl e ↦ rw e (h.0, All-keep p xs h.1)
    | inr e ↦ rw e (All-keep p xs h.1)
  ]

  pub All-insert_by :
      (before : A → A → Bool) (x : A) (ys : List A) → P x → All P ys → All P (insert_by before x ys)
  All-insert_by before x [] px h = (px, tt)
  All-insert_by before x (y ∷ ys) px h = elim (Bool-cases (before y x)) [
    | inl e ↦ rw e (h.0, All-insert_by before x ys px h.1)
    | inr e ↦ rw e (px, h)
  ]

  pub All-sort_by : (before : A → A → Bool) (xs : List A) → All P xs → All P (sort_by before xs)
  All-sort_by before [] h = tt
  All-sort_by before (x ∷ xs) h =
      All-insert_by before x (sort_by before xs) h.0 (All-sort_by before xs h.1)

pub All-map {ℓ κ μ} :
    {A : Type ℓ} (P : A → Type κ) (Q : A → Type μ)
    → ((x : A) → P x → Q x)
    → (xs : List A) → All P xs
    → All Q xs
All-map P Q f [] h = tt
All-map P Q f (x ∷ xs) h = (f x h.0, All-map P Q f xs h.1)

-- A sort by a test that agrees with a transitive relation is in its order.
module _ {ℓ κ} {A : Type ℓ} (R : A → A → Type κ) (before : A → A → Bool)
    (R_of_before : (a b : A) → before a b ≡ true → R a b)
    (R_of_not_before : (a b : A) → before a b ≡ false → R b a)
    (R_trans : (a b c : A) → R a b → R b c → R a c) where
  insert_by-Ascending : (x : A) (ys : List A) → Ascending R ys → Ascending R (insert_by before x ys)
  insert_by-Ascending x [] h = (tt, tt)
  insert_by-Ascending x (y ∷ ys) h = elim (Bool-cases (before y x)) [
    | inl e ↦
        rw e (All-insert_by (R y) before x ys (R_of_before y x e) h.0, insert_by-Ascending x ys h.1)
    | inr e ↦
        let xy = R_of_not_before y x e in
        rw e ((xy, All-map (R y) (R x) (λ z yz. R_trans x y z xy yz) ys h.0), h)
  ]

  pub sort_by-Ascending : (xs : List A) → Ascending R (sort_by before xs)
  sort_by-Ascending [] = tt
  sort_by-Ascending (x ∷ xs) = insert_by-Ascending x (sort_by before xs) (sort_by-Ascending xs)

module _ {ℓ} {A : Type ℓ} (f : A → ℤ) where
  sum_over-insert_by :
      (before : A → A → Bool) (x : A) (ys : List A)
      → sum_over f (insert_by before x ys) ≡ f x +ℤ sum_over f ys
  unfolding sum_over
  sum_over-insert_by before x [] = refl
  sum_over-insert_by before x (y ∷ ys) = elim (Bool-cases (before y x)) [
    | inl e ↦ rw (e, sum_over-insert_by before x ys) (omega int_laws)
    | inr e ↦ rw e
  ]

  -- The order of a list does not matter to its sum.
  pub sum_over-sort_by :
      (before : A → A → Bool) (xs : List A) → sum_over f (sort_by before xs) ≡ sum_over f xs
  unfolding sum_over
  sum_over-sort_by before [] = refl
  sum_over-sort_by before (x ∷ xs) =
      sum_over-insert_by before x (sort_by before xs)
      ∙ ap (λ (s : ℤ). f x +ℤ s) (sum_over-sort_by before xs)

  pub sum_over-keep :
      (p : A → Bool) (xs : List A)
      → sum_over f (keep p xs) ≡ sum_over (λ x. if p x then f x else pos 0) xs
  unfolding sum_over
  sum_over-keep p [] = refl
  sum_over-keep p (x ∷ xs) = elim (Bool-cases (p x)) [
    | inl e ↦ rw (e, sum_over-keep p xs)
    | inr e ↦ rw (e, sum_over-keep p xs) (omega int_laws)
  ]

  -- A sum of zeros.
  pub sum_over-zero : (xs : List A) → All (λ x. f x ≡ pos 0) xs → sum_over f xs ≡ pos 0
  unfolding sum_over
  sum_over-zero [] h = refl
  sum_over-zero (x ∷ xs) h = rw (h.0, sum_over-zero xs h.1) (omega int_laws)

  pub sum_over_same :
      (g : A → ℤ) (xs : List A) → All (λ x. f x ≡ g x) xs → sum_over f xs ≡ sum_over g xs
  unfolding sum_over
  sum_over_same g [] h = refl
  sum_over_same g (x ∷ xs) h = rw (h.0, sum_over_same g xs h.1)

-- The order by dates and then by sequence numbers.
abbrev pub KeyLe : ℕ → ℕ → ℕ → ℕ → Type 0
KeyLe d s d' s' = key_before d' s' d s ≡ false

pub key_before-KeyLe : (d s d' s' : ℕ) → key_before d s d' s' ≡ true → KeyLe d s d' s'
key_before-KeyLe d s d' s' h = ground arith

pub KeyLe-trans :
    (d s d' s' d'' s'' : ℕ) → KeyLe d s d' s' → KeyLe d' s' d'' s'' → KeyLe d s d'' s''
KeyLe-trans d s d' s' d'' s'' h k = ground arith

pub KeyLe-date : (d s d' s' : ℕ) → KeyLe d s d' s' → d ≤ d'
KeyLe-date d s d' s' h = ground arith

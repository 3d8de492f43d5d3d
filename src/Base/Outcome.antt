-- ===== src/Base/Outcome.antt =====
-- Calls that may throw. `RangeError` is a BigInt division by zero, `SyntaxError` a text that
-- BigInt refuses, `TypeError` the money module's refusal of a text; the others are the API
-- problems of the mock adapter, by their status and cause.
use mathlib.Core.Path.{◌≡◌, refl, subst}
use mathlib.Core.Bool.{Bool, true, false}
use mathlib.Core.List.{List, [], ◌∷◌}

pub data Error : Type 0 where
  range_error syntax_error type_error precision_error : Error
  not_found invalid conflict insufficient : Error
  signed_out unavailable : Error

-- What a call returns or throws.
pub data Result {κ} (S : Type κ) : Type κ where
  ok : S → Result S
  err : Error → Result S

-- `if (c) throw e`
abbrev pub throw_if : Bool → Error → Result (Unit {0})
throw_if true problem = err problem
throw_if false problem = ok tt

-- What follows a call is skipped when the call throws.
infixl 5 ◌>>=◌ ◌>>◌
abbrev pub ◌>>=◌ {κ μ} : {S : Type κ} {T : Type μ} → Result S → (S → Result T) → Result T
err problem >>= next = err problem
ok s >>= next = next s

abbrev pub ◌>>◌ {μ} : {T : Type μ} → Result (Unit {0}) → Result T → Result T
first >> second = first >>= λ done. second

-- A `for` loop over a list whose body may throw.
abbrev pub for_each {ℓ κ} : {S : Type ℓ} {A : Type κ} → (S → A → Result S) → S → List A → Result S
for_each body s [] = ok s
for_each body s (x ∷ xs) = body s x >>= λ s'. for_each body s' xs

-- A chain that returns has a first call that returns.
pub >>=-eq-ok {κ μ} :
    {S : Type κ} {T : Type μ} (call : Result S) (next : S → Result T) {t : T}
    → (call >>= next) ≡ ok t
    → (s : S) × (call ≡ ok s) × (next s ≡ ok t)
>>=-eq-ok (err problem) next h = cc
>>=-eq-ok (ok s) next h = (s, refl, h)

-- A check that lets the call go on was about a test that is false.
pub throw_if-passes :
    (b : Bool) (problem : Error) {u : Unit {0}} → throw_if b problem ≡ ok u → b ≡ false
throw_if-passes true problem h = cc
throw_if-passes false problem h = refl

pub ok-injective {ℓ} : {A : Type ℓ} {a b : A} → ok a ≡ ok b → a ≡ b
ok-injective h = cc

-- Three loops over one list, of which the third always has the join of the states of the others.
module _ {ℓ κ} {S : Type ℓ} {A : Type κ} (join : S → S → S) (f g h : S → A → Result S)
    (round : (s t s' t' : S) (x : A)
      → f s x ≡ ok s'
      → g t x ≡ ok t'
      → h (join s t) x ≡ ok (join s' t')) where
  pub for_each-join :
      (xs : List A) (s t s' t' : S)
      → for_each f s xs ≡ ok s'
      → for_each g t xs ≡ ok t'
      → for_each h (join s t) xs ≡ ok (join s' t')
  for_each-join [] s t s' t' p q = cc
  for_each-join (x ∷ xs) s t s' t' p q =
      let (s1, p1, p2) = >>=-eq-ok (f s x) (λ u. for_each f u xs) p in
      let (t1, q1, q2) = >>=-eq-ok (g t x) (λ u. for_each g u xs) q in
      rw (round s t s1 t1 x p1 q1) (for_each-join xs s1 t1 s' t' p2 q2)

-- An invariant of the rounds is one of the loop.
module _ {ℓ κ μ} {S : Type ℓ} {A : Type κ} (P : S → Type μ) (f : S → A → Result S)
    (round : (s s' : S) (x : A) → P s → f s x ≡ ok s' → P s') where
  pub for_each-keeps : (xs : List A) (s s' : S) → P s → for_each f s xs ≡ ok s' → P s'
  for_each-keeps [] s s' p h = subst P (ok-injective h) p
  for_each-keeps (x ∷ xs) s s' p h =
      let (s1, h1, h2) = >>=-eq-ok (f s x) (λ u. for_each f u xs) h in
      for_each-keeps xs s1 s' (round s s1 x p h1) h2

-- ===== src/Adapter/Paging.antt =====
-- The pages of adapter.ts, and `instruments.remove`.
use Prim.Native.Nat.add
use wealthboard.Base.{
  ℕ, zero, suc, ◌+◌, ◌-◌, ◌==◌, ◌≡◌, refl, sym, ap, ◌∙◌, Bool, true, false, not, ◌||◌, arith, List,
  [], ◌∷◌, ◌++◌, take, drop, length, ltb, keep, any, All, length-drop, throw_if, throw_if-passes,
  conflict, not_found,
}
use wealthboard.World.{World, Instrument}
use wealthboard.Engine.Ledgers.{Engine}
use wealthboard.Adapter.Entries.{is_empty}
use wealthboard.Adapter.Pages.{page_of}
use wealthboard.Adapter.Catalogue.{remove_instrument}
use wealthboard.Adapter.Leaves.{Leaves, Leaves->>=}

take_nil {ℓ} : {A : Type ℓ} (n : ℕ) → take {A = A} n [] ≡ []
take_nil zero = refl
take_nil (suc n) = refl

drop_nil {ℓ} : {A : Type ℓ} (n : ℕ) → drop {A = A} n [] ≡ []
drop_nil zero = refl
drop_nil (suc n) = refl

take-add {ℓ} :
    {A : Type ℓ} (l m : ℕ) (xs : List A) → take l xs ++ take m (drop l xs) ≡ take (l + m) xs
take-add zero m xs = rw (add.zero) refl
take-add (suc l) m [] = take_nil m ∙ sym (take_nil (suc l + m))
take-add (suc l) m (x ∷ xs) = rw (add.suc) (ap (λ r. x ∷ r) (take-add l m xs))

drop-add {ℓ} : {A : Type ℓ} (o l : ℕ) (xs : List A) → drop l (drop o xs) ≡ drop (o + l) xs
drop-add zero l xs = rw (add.zero) refl
drop-add (suc o) l [] = drop_nil l ∙ sym (drop_nil (suc o + l))
drop-add (suc o) l (x ∷ xs) = rw (add.suc) (drop-add o l xs)

-- The page of `m` items behind a page of `l` items continues it: together they are the page of
-- `l + m` items at the place of the first.
pub page_of-join {ℓ} :
    {A : Type ℓ} (l m o : ℕ) (all : List A)
    → (page_of l o all).items ++ (page_of m (o + l) all).items ≡ (page_of (l + m) o all).items
unfolding page_of
page_of-join l m o all =
    ap (λ xs. take l (drop o all) ++ take m xs) (sym (drop-add o l all)) ∙ take-add l m (drop o all)

nonempty {ℓ} :
    {A : Type ℓ} (m : ℕ) (xs : List A) → not (is_empty (take (suc m) xs)) ≡ ltb 0 (length xs)
nonempty m [] = refl
nonempty m (x ∷ xs) = ground arith

left_over : (a b : ℕ) → ltb 0 (b - a) ≡ ltb a b
left_over a b = ground arith

-- `hasMore` says whether the next page, of any size but zero, has an item.
pub page_of_has_more {ℓ} :
    {A : Type ℓ} (l m o : ℕ) (all : List A)
    → (page_of l o all).has_more ≡ not (is_empty (page_of (suc m) (o + l) all).items)
unfolding page_of
page_of_has_more l m o all = sym (
    nonempty m (drop (o + l) all)
    ∙ ap (ltb 0) (length-drop (o + l) all)
    ∙ left_over (o + l) (length all))

first_or : (a b : Bool) → (a || b) ≡ false → a ≡ false
first_or false b h = refl
first_or true b h = absurd (ground arith)

second_is : (a b : Bool) → (a || b) ≡ false → b ≡ false
second_is false b h = h
second_is true b h = absurd (ground arith)

-- An instrument of the list has the id.
abbrev pub Listed : List Instrument → ℕ → Type 0
Listed instruments id = any (λ i. i.id == id) instruments ≡ true

-- Every price and every trade is of an instrument of the world.
abbrev pub Priced : World → Type 0
Priced w =
    All (λ p. Listed w.instruments p.instrument_id) w.prices
    × All (λ p. Listed w.instruments p.instrument_id) w.position_events

Listed-keep :
    (gone : ℕ) (is : List Instrument) (id : ℕ)
    → (id == gone) ≡ false
    → Listed is id
    → Listed (keep (λ i. not (i.id == gone)) is) id
Listed-keep gone [] id d h = h
Listed-keep gone (i ∷ is) id d h = ground (arith, Listed-keep gone is id d)

All-Listed {ℓ} :
    {A : Type ℓ} (of : A → ℕ) (gone : ℕ) (is : List Instrument) (xs : List A)
    → any (λ x. of x == gone) xs ≡ false
    → All (λ x. Listed is (of x)) xs
    → All (λ x. Listed (keep (λ i. not (i.id == gone)) is) (of x)) xs
All-Listed of gone is [] n h = tt
All-Listed of gone is (x ∷ xs) n h = (
  Listed-keep gone is (of x) (first_or (of x == gone) _ n) h.0,
  All-Listed of gone is xs (second_is (of x == gone) _ n) h.1,
)

-- An instrument is removed only when no price and no trade is of it: all of them are still of
-- instruments of the world, if they were.
pub remove_instrument-Priced :
    (id : ℕ) (e : Engine) → Priced e.world → Leaves Priced (remove_instrument id e)
unfolding remove_instrument
remove_instrument-Priced id e (a, b) =
    Leaves->>= Priced (throw_if (not (any (λ i. i.id == id) e.world.instruments)) not_found) _
      (λ u p.
        let traded = any (λ p. p.instrument_id == id) e.world.position_events in
        let priced = any (λ p. p.instrument_id == id) e.world.prices in
        Leaves->>= Priced (throw_if (traded || priced) conflict) _ (λ u' p'.
          let free = throw_if-passes (traded || priced) conflict p' in
          (
            All-Listed (λ p. p.instrument_id) id e.world.instruments e.world.prices
                (second_is traded priced free) a,
            All-Listed (λ p. p.instrument_id) id e.world.instruments e.world.position_events
                (first_or traded priced free) b,
          )))

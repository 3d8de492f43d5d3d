-- ===== src/Base/Dict.antt =====
-- A `Map` in insertion order, with the key's equality given. To set a present key keeps its place.
use mathlib.Core.Path.{◌≡◌, refl}
use mathlib.Core.Bool.{Bool, true}
use mathlib.Core.Logic.{◌↔◌}
use mathlib.Core.Option.{Option, none, some}
use mathlib.Core.List.{List, [], ◌∷◌}
use native.Mathlib.Omega.{arith}
use wealthboard.Base.Tests.{if◌then◌else◌}

module _ {ℓ κ} {K : Type ℓ} {V : Type κ} (same_key : K → K → Bool) where
  unfoldable pub get_key : K → List (K × V) → Option V
  get_key k [] = none
  get_key k ((j, v) ∷ m) = if same_key k j then some v else get_key k m

  unfoldable pub set_key : K → V → List (K × V) → List (K × V)
  set_key k v [] = (k, v) ∷ []
  set_key k v ((j, w) ∷ m) = if same_key k j then (j, v) ∷ m else (j, w) ∷ set_key k v m

  module _ (key_iff : (a b : K) → (same_key a b ≡ true) ↔ (a ≡ b)) where
    pub get_key-set_key :
        (k j : K) (v : V) (m : List (K × V))
        → get_key j (set_key k v m) ≡ (if same_key j k then some v else get_key j m)
    unfolding get_key set_key
    get_key-set_key k j v [] = refl
    get_key-set_key k j v ((i, w) ∷ m) =
        ground (arith, key_iff k j, key_iff j k, key_iff k i, key_iff j i, get_key-set_key k j v m)

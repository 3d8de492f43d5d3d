-- ===== src/Adapter/Leaves.antt =====
-- Properties of the world that a handler of adapter.ts leaves.
use wealthboard.Base.{◌≡◌, refl, Result, ok, err, ◌>>=◌}
use wealthboard.World.{World}
use wealthboard.Engine.Ledgers.{Engine}
use wealthboard.Adapter.Backend.{settle}

-- A success has the property, and a failure has nothing to show.
abbrev pub Leaves {ℓ} : {A : Type ℓ} → (A → Type 0) → Result A → Type 0
Leaves P (ok a) = P a
Leaves P (err problem) = Unit

-- The rest of a chain may rely on what the first call returned.
pub Leaves->>= {ℓ κ} :
    {A : Type ℓ} {B : Type κ} (P : B → Type 0) (m : Result A) (f : A → Result B)
    → ((a : A) → m ≡ ok a → Leaves P (f a))
    → Leaves P (m >>= f)
Leaves->>= P (ok a) f h = h a refl
Leaves->>= P (err problem) f h = tt

pub settle-Leaves :
    (P : World → Type 0) (e : Engine) (m : Result World) → P e.world → Leaves P m → P (settle e m).0
settle-Leaves P e (ok w) p q = q
settle-Leaves P e (err problem) p q = p

-- ===== src/Adapter/Gate.antt =====
-- The early returns of `write` in adapter.ts.
use wealthboard.Base.{
  ℕ, ◌≡◌, refl, Bool, true, false, Option, none, some, if◌then◌else◌, Result, ok, err, signed_out,
  unavailable,
}
use wealthboard.Adapter.Backend.{Backend}

-- `write`, with what it reads of the state as arguments.
abbrev pub gate :
    Option ℕ
    → Bool
    → Option (Option ℕ)
    → Backend
    → (ℕ → Backend × Result (Option ℕ))
    → Backend × Result (Option ℕ)
gate user failing old b go = elim user [
  | none ↦ (b, err signed_out)
  | some u ↦
      if failing
      then (b, err unavailable)
      else elim old [ some reply ↦ (b, ok reply) | none ↦ go u ]
]

-- What the early returns of `write` make of a key that is recorded.
pub gate_kept :
    (user : Option ℕ) (failing : Bool) (old : Option (Option ℕ)) (b : Backend)
    (go : ℕ → Backend × Result (Option ℕ)) (reply : Option ℕ)
    → old ≡ some reply
    → (gate user failing old b go).0 ≡ b
gate_kept none failing old b go reply h = refl
gate_kept (some u) true old b go reply h = refl
gate_kept (some u) false none b go reply h = cc
gate_kept (some u) false (some other) b go reply h = refl

-- Where a write that succeeds passes the early returns.
pub gate_open :
    (user : Option ℕ) (failing : Bool) (old : Option (Option ℕ)) (b : Backend)
    (go : ℕ → Backend × Result (Option ℕ)) (reply : Option ℕ)
    → (gate user failing old b go).1 ≡ ok reply
    → (u : ℕ) × (user ≡ some u) × (failing ≡ false)
gate_open none failing old b go reply h = cc
gate_open (some u) true old b go reply h = cc
gate_open (some u) false old b go reply h = (u, refl, refl)

pub gate_replays :
    (user : Option ℕ) (failing : Bool) (old : Option (Option ℕ)) (b : Backend)
    (go : ℕ → Backend × Result (Option ℕ)) (u : ℕ) (reply : Option ℕ)
    → user ≡ some u
    → failing ≡ false
    → old ≡ some reply
    → gate user failing old b go ≡ (b, ok reply)
gate_replays none failing old b go u reply f g e = cc
gate_replays (some v) true old b go u reply f g e = cc
gate_replays (some v) false none b go u reply f g e = cc
gate_replays (some v) false (some other) b go u reply f g e = cc

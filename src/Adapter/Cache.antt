-- ===== src/Adapter/Cache.antt =====
-- `write` and `engineFor` of adapter.ts: the cached engines and the recorded results, over writes.
use wealthboard.Base.{
  ℕ, ◌==◌, ◌<◌, ◌≡◌, ◌↔◌, refl, sym, ◌∙◌, Bool, true, false, arith, Bool-cases, ◌⊎◌, inl, inr,
  Option, none, some, if◌then◌else◌, Empty, Text, ==_iff, Result, ok, err, Error, signed_out,
  unavailable, get_key, get_key-set_key,
}
use wealthboard.World.{World}
use wealthboard.Engine.Ledgers.{Engine}
use wealthboard.Adapter.Entries.{Host}
use wealthboard.Adapter.Backend.{
  Request, perform, reply_of, Cached, Backend, id_eq, or_new, world_for, engine_for, recorded, bump,
  finish, run, write,
}
use wealthboard.Adapter.Versions.{perform-version, perform-Restored, Restored, is_atomic}

-- The engine that is kept for a user is older than the user's world, or is the engine of it.
abbrev pub CoherentFor : Option Cached → Option World → Type 0
CoherentFor none w = Unit
CoherentFor (some c) none = Empty
CoherentFor (some c) (some w) =
    (c.version < w.version) ⊎ ((c.version ≡ w.version) × (c.engine.world ≡ w))

abbrev pub Coherent : ℕ → Backend → Type 0
Coherent u b = CoherentFor (get_key id_eq u b.engines) (get_key id_eq u b.worlds)

fresh_world :
    (o : Option Cached) (m : Option World) (w : World)
    → CoherentFor o m
    → CoherentFor o (some (or_new m w))
fresh_world none none w h = tt
fresh_world none (some w') w h = tt
fresh_world (some c) none w h = elim h [ ]
fresh_world (some c) (some w') w h = h

older_differs : (a b : ℕ) → a < b → (a == b) ≡ false
older_differs a b h = ground arith

-- `engineFor` hands out an engine of the world as it is, if the one it keeps is coherent with it.
pub engine_for-current :
    (today : ℕ) (w : World) (o : Option Cached)
    → CoherentFor o (some w)
    → ((engine_for today w o).version ≡ w.version) × ((engine_for today w o).engine.world ≡ w)
unfolding engine_for
engine_for-current today w none h = (refl, refl)
engine_for-current today w (some c) (inl older) =
    rw (older_differs c.version w.version older) (refl, refl)
engine_for-current today w (some c) (inr (e, f)) = elim (Bool-cases (c.version == w.version)) [
  | inl k ↦ rw k (e, f)
  | inr k ↦ rw k (refl, refl)
]

key_iff : (a b : ℕ) → (id_eq a b ≡ true) ↔ (a ≡ b)
key_iff a b = ==_iff a b

-- After a write of the user `u`, for any user `v`.
finish-Coherent :
    (u v : ℕ) (c : Cached) (key : Option Text) (reply : Option ℕ) (w : World)
    (out : World × Result (Unit {0})) (b : Backend)
    → c.version ≡ w.version
    → c.engine.world ≡ w
    → out.0.version ≡ w.version
    → Restored w out
    → Coherent v b
    → Coherent v (finish u c key reply out b).0
unfolding finish
finish-Coherent u v c key reply w (w', ok done) b cv cw wv r h =
    rw
      (
        get_key-set_key id_eq key_iff u v (bump w') b.worlds,
        get_key-set_key id_eq key_iff u v c b.engines,
      )
      (elim (Bool-cases (id_eq v u)) [ inl k ↦ rw k (inl (omega arith)) | inr k ↦ rw k h ])
finish-Coherent u v c key reply w (w', err problem) b cv cw wv r h =
    rw
      (get_key-set_key id_eq key_iff u v w' b.worlds, get_key-set_key id_eq key_iff u v c b.engines)
      (elim (Bool-cases (id_eq v u)) [
        | inl k ↦ rw k (inr (cv ∙ sym wv, cw ∙ sym r))
        | inr k ↦ rw k h
      ])

run-Coherent :
    (h : Host) (today : ℕ) (fixture : ℕ → World) (u v : ℕ) (r : Request) (key : Option Text)
    (b : Backend)
    → is_atomic r ≡ true
    → Coherent u b
    → Coherent v b
    → Coherent v (run h today fixture u r key b).0
unfolding run world_for
run-Coherent h today fixture u v r key b atomic mine c =
    let w = or_new (get_key id_eq u b.worlds) (fixture u) in
    let o = get_key id_eq u b.engines in
    let (cv, cw) =
      engine_for-current today w o (fresh_world o (get_key id_eq u b.worlds) (fixture u) mine) in
    let k = engine_for today w o in
    let e : Engine = record { world = w; today = k.engine.today } in
    finish-Coherent u v k key (reply_of h r w) w (perform h r e) b cv cw (perform-version h r e)
      (perform-Restored h r e atomic) c

-- The early returns of `write` leave the state as it was.
pub write_gate :
    (P : Backend × Result (Option ℕ) → Type 0) (user : Option ℕ) (failing : Bool)
    (old : Option (Option ℕ)) (b : Backend) (go : ℕ → Backend × Result (Option ℕ))
    → ((problem : Error) → P (b, err problem))
    → ((reply : Option ℕ) → old ≡ some reply → P (b, ok reply))
    → ((u : ℕ) → P (go u))
    → P (elim user [
      | none ↦ (b, err signed_out)
      | some u ↦
          if failing
          then (b, err unavailable)
          else elim old [ some reply ↦ (b, ok reply) | none ↦ go u ]
    ])
write_gate P none failing old b go fail stay act = fail _
write_gate P (some u) true old b go fail stay act = fail _
write_gate P (some u) false none b go fail stay act = act u
write_gate P (some u) false (some reply) b go fail stay act = stay reply refl

-- Every write, whether it succeeds or throws and whoever sends it, keeps the cached engines coherent
-- with the worlds, if they are for all users; the creation of an account whose opening value cannot
-- be read is left out.
pub write-Coherent :
    (h : Host) (today : ℕ) (fixture : ℕ → World) (r : Request) (key : Option Text) (b : Backend)
    (v : ℕ)
    → is_atomic r ≡ true
    → ((u : ℕ) → Coherent u b)
    → Coherent v (write h today fixture r key b).0
unfolding write
write-Coherent h today fixture r key b v atomic c =
    write_gate (λ out. Coherent v out.0) b.user b.failing (recorded key b) b
      (λ u. run h today fixture u r key b) (λ problem. c v) (λ reply e. c v)
      (λ u. run-Coherent h today fixture u v r key b atomic (c u) (c v))

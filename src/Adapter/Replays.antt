-- ===== src/Adapter/Replays.antt =====
-- `write` of adapter.ts: a write that is sent again with its key.
use wealthboard.Base.{
  ℕ, List, [], ◌∷◌, ◌≡◌, ◌↔◌, refl, ◌∙◌, ap, subst, true, false, Bool-cases, inl, inr, Option, none,
  some, Text, same, same→eq, same_refl, Result, ok, err, get_key, get_key-set_key,
}
use wealthboard.World.{World}
use wealthboard.Adapter.Entries.{Host}
use wealthboard.Adapter.Backend.{
  Request, perform, reply_of, Cached, Backend, id_eq, world_for, engine_for, recorded, record_reply,
  finish, run, write,
}
use wealthboard.Adapter.Cache.{write_gate}
use wealthboard.Adapter.Gate.{gate_kept, gate_open, gate_replays}

abbrev Kept : Option Text → Backend × Result (Option ℕ) → Type 0
Kept key (b, ok reply) = recorded key b ≡ some reply
Kept key (b, err problem) = Unit

text_iff : (s t : Text) → (same s t ≡ true) ↔ (s ≡ t)
text_iff s t = (same→eq s t, λ e. subst (λ u. same s u ≡ true) e (same_refl s))

finish-Kept :
    (u : ℕ) (k : Cached) (c : ℕ) (key : Text) (reply : Option ℕ) (out : World × Result (Unit {0}))
    (b : Backend)
    → Kept (some (c ∷ key)) (finish u k (some (c ∷ key)) reply out b)
unfolding finish record_reply recorded
finish-Kept u k c key reply (w, ok done) b =
    rw (get_key-set_key same text_iff (c ∷ key) (c ∷ key) reply b.idempotency, same_refl (c ∷ key))
      refl
finish-Kept u k c key reply (w, err problem) b = tt

write-Kept :
    (h : Host) (today : ℕ) (fixture : ℕ → World) (r : Request) (c : ℕ) (key : Text) (b : Backend)
    → Kept (some (c ∷ key)) (write h today fixture r (some (c ∷ key)) b)
unfolding write run
write-Kept h today fixture r c key b =
    write_gate (Kept (some (c ∷ key))) b.user b.failing (recorded (some (c ∷ key)) b) b
      (λ u. run h today fixture u r (some (c ∷ key)) b) (λ problem. tt) (λ reply e. e)
      (λ u.
        let w = world_for fixture u b in
        let k = engine_for today w (get_key id_eq u b.engines) in
        finish-Kept u k c key (reply_of h r w)
          (perform h r (record { world = w; today = k.engine.today })) b)

-- The same user is signed in, and the server answers as it did.
abbrev Stays : Backend → Backend → Type 0
Stays b b' = (b'.user ≡ b.user) × (b'.failing ≡ b.failing)

finish-Stays :
    (u : ℕ) (k : Cached) (key : Option Text) (reply : Option ℕ) (out : World × Result (Unit {0}))
    (b : Backend)
    → Stays b (finish u k key reply out b).0
unfolding finish
finish-Stays u k key reply (w, ok done) b = (refl, refl)
finish-Stays u k key reply (w, err problem) b = (refl, refl)

write-Stays :
    (h : Host) (today : ℕ) (fixture : ℕ → World) (r : Request) (key : Option Text) (b : Backend)
    → Stays b (write h today fixture r key b).0
unfolding write run
write-Stays h today fixture r key b =
    write_gate (λ out. Stays b out.0) b.user b.failing (recorded key b) b
      (λ u. run h today fixture u r key b) (λ problem. (refl, refl)) (λ reply e. (refl, refl))
      (λ u.
        let w = world_for fixture u b in
        let k = engine_for today w (get_key id_eq u b.engines) in
        finish-Stays u k key (reply_of h r w)
          (perform h r (record { world = w; today = k.engine.today })) b)

-- A write without the key, or of another key, leaves what is recorded under it.
abbrev Avoids : Option Text → Text → Type 0
Avoids none key = Unit
Avoids (some k) key = same key k ≡ false

record_reply-Avoids :
    (other : Option Text) (key : Text) (reply : Option ℕ) (m : List (Text × Option ℕ))
    → Avoids other key
    → get_key same key (record_reply other reply m) ≡ get_key same key m
unfolding record_reply
record_reply-Avoids none key reply m n = refl
record_reply-Avoids (some []) key reply m n = refl
record_reply-Avoids (some (d ∷ k)) key reply m n =
    rw (get_key-set_key same text_iff (d ∷ k) key reply m, n) refl

finish-Avoids :
    (u : ℕ) (k : Cached) (other : Option Text) (c : ℕ) (key : Text) (reply : Option ℕ)
    (out : World × Result (Unit {0})) (b : Backend)
    → Avoids other (c ∷ key)
    → recorded (some (c ∷ key)) (finish u k other reply out b).0 ≡ recorded (some (c ∷ key)) b
unfolding finish recorded
finish-Avoids u k other c key reply (w, ok done) b n =
    record_reply-Avoids other (c ∷ key) reply b.idempotency n
finish-Avoids u k other c key reply (w, err problem) b n = refl

write-Avoids :
    (h : Host) (today : ℕ) (fixture : ℕ → World) (r : Request) (other : Option Text) (c : ℕ)
    (key : Text) (b : Backend)
    → Avoids other (c ∷ key)
    → recorded (some (c ∷ key)) (write h today fixture r other b).0 ≡ recorded (some (c ∷ key)) b
unfolding write run
write-Avoids h today fixture r other c key b n =
    write_gate (λ out. recorded (some (c ∷ key)) out.0 ≡ recorded (some (c ∷ key)) b) b.user
      b.failing (recorded other b) b (λ u. run h today fixture u r other b) (λ problem. refl)
      (λ reply e. refl)
      (λ u.
        let w = world_for fixture u b in
        let k = engine_for today w (get_key id_eq u b.engines) in
        finish-Avoids u k other c key (reply_of h r w)
          (perform h r (record { world = w; today = k.engine.today })) b n)

-- A write of a key that is recorded leaves the state.
write_unchanged :
    (h : Host) (today : ℕ) (fixture : ℕ → World) (r : Request) (key : Option Text) (b : Backend)
    (reply : Option ℕ)
    → recorded key b ≡ some reply
    → (write h today fixture r key b).0 ≡ b
unfolding write
write_unchanged h today fixture r key b reply e =
    gate_kept b.user b.failing (recorded key b) b (λ u. run h today fixture u r key b) reply e

write-recorded :
    (h : Host) (today : ℕ) (fixture : ℕ → World) (r : Request) (other : Option Text) (c : ℕ)
    (key : Text) (b : Backend) (reply : Option ℕ)
    → recorded (some (c ∷ key)) b ≡ some reply
    → recorded (some (c ∷ key)) (write h today fixture r other b).0 ≡ some reply
write-recorded h today fixture r none c key b reply e =
    write-Avoids h today fixture r none c key b tt ∙ e
write-recorded h today fixture r (some k) c key b reply e = elim (Bool-cases (same (c ∷ key) k)) [
  | inl y ↦
      let f : recorded (some k) b ≡ some reply =
        subst (λ (j : Text). recorded (some j) b ≡ some reply) (same→eq (c ∷ key) k y) e in
      ap (recorded (some (c ∷ key))) (write_unchanged h today fixture r (some k) b reply f) ∙ e
  | inr n ↦ write-Avoids h today fixture r (some k) c key b n ∙ e
]

-- One write among those that the signed-in user sends.
pub record Submission : Type 0 where
  pub host : Host
  pub today : ℕ
  pub request : Request
  pub key : Option Text

-- The state after a sequence of writes.
unfoldable pub after_writes : (ℕ → World) → List Submission → Backend → Backend
after_writes fixture [] b = b
after_writes fixture (s ∷ ss) b =
    after_writes fixture ss (write s.host s.today fixture s.request s.key b).0

-- A state in which a key of the signed-in user is recorded, and the server answers.
abbrev Recorded : ℕ → Text → Option ℕ → Backend → Type 0
Recorded c key reply b =
    (recorded (some (c ∷ key)) b ≡ some reply) × ((u : ℕ) × (b.user ≡ some u) × (b.failing ≡ false))

after_writes-Recorded :
    (fixture : ℕ → World) (ss : List Submission) (c : ℕ) (key : Text) (reply : Option ℕ)
    (b : Backend)
    → Recorded c key reply b
    → Recorded c key reply (after_writes fixture ss b)
unfolding after_writes
after_writes-Recorded fixture [] c key reply b h = h
after_writes-Recorded fixture (s ∷ ss) c key reply b (e, (u, f, g)) =
    let (p, q) = write-Stays s.host s.today fixture s.request s.key b in
    after_writes-Recorded fixture ss c key reply (write s.host s.today fixture s.request s.key b).0
      (write-recorded s.host s.today fixture s.request s.key c key b reply e, (u, p ∙ f, q ∙ g))

first-Recorded :
    (h : Host) (today : ℕ) (fixture : ℕ → World) (r : Request) (c : ℕ) (key : Text) (b b' : Backend)
    (reply : Option ℕ)
    → write h today fixture r (some (c ∷ key)) b ≡ (b', ok reply)
    → Recorded c key reply b'
unfolding write
first-Recorded h today fixture r c key b b' reply first =
    let (u, f, g) =
      gate_open b.user b.failing (recorded (some (c ∷ key)) b) b
        (λ u. run h today fixture u r (some (c ∷ key)) b) reply (ap (λ out. out.1) first) in
    let (p, q) =
      subst (λ out. Stays b out.0) first (write-Stays h today fixture r (some (c ∷ key)) b) in
    (subst (Kept (some (c ∷ key))) first (write-Kept h today fixture r c key b), (u, p ∙ f, q ∙ g))

replayed :
    (h : Host) (today : ℕ) (fixture : ℕ → World) (r : Request) (c : ℕ) (key : Text)
    (reply : Option ℕ) (b : Backend)
    → Recorded c key reply b
    → write h today fixture r (some (c ∷ key)) b ≡ (b, ok reply)
unfolding write
replayed h today fixture r c key reply b (e, (u, f, g)) =
    gate_replays b.user b.failing (recorded (some (c ∷ key)) b) b
      (λ v. run h today fixture v r (some (c ∷ key)) b) u reply f g e

-- After a write with a key that succeeded, and any further writes of the user who is signed in, the
-- same write sent again with the same key, at whatever time, returns the first result and leaves the
-- state as it is.
pub write_replays :
    (h h' : Host) (today today' : ℕ) (fixture : ℕ → World) (r : Request) (c : ℕ) (key : Text)
    (b b' : Backend) (reply : Option ℕ) (ss : List Submission)
    → write h today fixture r (some (c ∷ key)) b ≡ (b', ok reply)
    → write h' today' fixture r (some (c ∷ key)) (after_writes fixture ss b')
      ≡ (after_writes fixture ss b', ok reply)
write_replays h h' today today' fixture r c key b b' reply ss first =
    replayed h' today' fixture r c key reply (after_writes fixture ss b') (
      after_writes-Recorded fixture ss c key reply b'
        (first-Recorded h today fixture r c key b b' reply first))

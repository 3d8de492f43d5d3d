-- ===== src/Adapter/Refers.antt =====
-- The accounts that the entries of a world are on, under the changes that the handlers make.
use wealthboard.Base.{
  ℕ, ◌==◌, ◌≡◌, Bool, true, false, not, arith, Bool-cases, inl, inr, List, [], ◌∷◌, ◌++◌, any, keep,
  All, Member, ok,
}
use wealthboard.World.{World, TxnRecord, ValuationRecord, PositionEventRecord, AccountRecord}
use wealthboard.Engine.Order.{All-map}
use wealthboard.Adapter.Entries.{update_first, push_txn, find_account}
use wealthboard.Adapter.Found.{find_account-found}

-- An account of the list has the id.
abbrev pub Known : List AccountRecord → ℕ → Type 0
Known accounts id = any (λ a. a.id == id) accounts ≡ true

-- Every entry is on an account of the list.
abbrev pub Placed :
    List AccountRecord → List TxnRecord → List ValuationRecord → List PositionEventRecord → Type 0
Placed accounts ts vs ps =
    All (λ t. Known accounts t.account_id) ts
    × All (λ v. Known accounts v.account_id) vs
    × All (λ p. Known accounts p.account_id) ps

abbrev pub Refers : World → Type 0
Refers w = Placed w.accounts w.transactions w.valuations w.position_events

module _ {ℓ κ} {A : Type ℓ} (P : A → Type κ) where
  pub All-append : (xs ys : List A) → All P xs → All P ys → All P (xs ++ ys)
  All-append [] ys h k = k
  All-append (x ∷ xs) ys h k = (h.0, All-append xs ys h.1 k)

  pub All-update_first :
      (test : A → Bool) (f : A → A)
      → ((x : A) → P x → P (f x))
      → (xs : List A) → All P xs
      → All P (update_first test f xs)
  All-update_first test f keeps [] h = tt
  All-update_first test f keeps (x ∷ xs) h = elim (Bool-cases (test x)) [
    | inl k ↦ rw k (keeps x h.0, h.1)
    | inr k ↦ rw k (h.0, All-update_first test f keeps xs h.1)
  ]

pub Known-append :
    (accounts more : List AccountRecord) (id : ℕ) → Known accounts id → Known (accounts ++ more) id
Known-append [] more id h = absurd (cc h)
Known-append (a ∷ accounts) more id h = ground (arith, Known-append accounts more id)

pub Known-last :
    (accounts : List AccountRecord) (a : AccountRecord) → Known (accounts ++ a ∷ []) a.id
Known-last [] a = ground arith
Known-last (b ∷ accounts) a = ground (arith, Known-last accounts a)

pub Known-Member :
    (accounts : List AccountRecord) (a : AccountRecord) → Member a accounts → Known accounts a.id
Known-Member [] a m = elim m [ ]
Known-Member (b ∷ accounts) a (inl e) = rw e (ground arith)
Known-Member (b ∷ accounts) a (inr m) = ground (arith, Known-Member accounts a m)

pub Known-update_first :
    (test : AccountRecord → Bool) (f : AccountRecord → AccountRecord)
    → ((a : AccountRecord) → (f a).id ≡ a.id)
    → (accounts : List AccountRecord) (id : ℕ) → Known accounts id
    → Known (update_first test f accounts) id
Known-update_first test f same_id [] id h = h
Known-update_first test f same_id (a ∷ accounts) id h = elim (Bool-cases (test a)) [
  | inl k ↦ rw (k, same_id a) h
  | inr k ↦ rw k (ground (arith, Known-update_first test f same_id accounts id))
]

pub Known-keep :
    (gone : ℕ) (accounts : List AccountRecord) (id : ℕ)
    → (id == gone) ≡ false
    → Known accounts id
    → Known (keep (λ a. not (a.id == gone)) accounts) id
Known-keep gone [] id d h = h
Known-keep gone (a ∷ accounts) id d h = ground (arith, Known-keep gone accounts id d)

-- What is not on the account that goes is still on an account.
pub All-keep-Known {ℓ} :
    {A : Type ℓ} (account_of : A → ℕ) (gone : ℕ) (accounts : List AccountRecord) (xs : List A)
    → All (λ x. Known accounts (account_of x)) xs
    → All
        (λ x. Known (keep (λ a. not (a.id == gone)) accounts) (account_of x))
        (keep (λ x. not (account_of x == gone)) xs)
All-keep-Known account_of gone accounts [] h = tt
All-keep-Known account_of gone accounts (x ∷ xs) h = elim (Bool-cases (account_of x == gone)) [
  | inl k ↦ rw k (All-keep-Known account_of gone accounts xs h.1)
  | inr k ↦ rw k (
    Known-keep gone accounts (account_of x) k h.0,
    All-keep-Known account_of gone accounts xs h.1,
  )
]

-- The accounts of a world may change as long as none is lost.
pub Placed-accounts :
    (accounts accounts' : List AccountRecord) (ts : List TxnRecord) (vs : List ValuationRecord)
    (ps : List PositionEventRecord)
    → ((id : ℕ) → Known accounts id → Known accounts' id)
    → Placed accounts ts vs ps
    → Placed accounts' ts vs ps
Placed-accounts accounts accounts' ts vs ps f (a, b, c) = (
  All-map (λ t. Known accounts t.account_id) (λ t. Known accounts' t.account_id)
      (λ t. f t.account_id) ts a,
  All-map (λ t. Known accounts t.account_id) (λ t. Known accounts' t.account_id)
      (λ t. f t.account_id) vs b,
  All-map (λ t. Known accounts t.account_id) (λ t. Known accounts' t.account_id)
      (λ t. f t.account_id) ps c,
)

pub find_account-Known :
    (w : World) (id : ℕ) {a : AccountRecord} → find_account w id ≡ ok a → Known w.accounts a.id
find_account-Known w id {a} h = Known-Member w.accounts a (find_account-found w id h).1

-- A new transaction on an account of the world.
pub push_txn-Refers :
    (t : TxnRecord) (w : World) → Known w.accounts t.account_id → Refers w → Refers (push_txn t w)
push_txn-Refers t w k (a, b, c) =
    (All-append (λ x. Known w.accounts x.account_id) w.transactions (t ∷ []) a (k, tt), b, c)

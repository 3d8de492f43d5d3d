-- ===== src/Adapter/Undo.antt =====
-- `transactions.remove` of adapter.ts on a transfer.
use wealthboard.Base.{
  ℕ, ◌==◌, ◌≡◌, refl, ap, ap₂, ◌∙◌, true, false, some, List, [], ◌∷◌, ◌++◌, keep, find, keep-append,
  append_assoc, append-nil, All, ok,
}
use wealthboard.World.{World, TxnRecord}
use wealthboard.Engine.Ledgers.{Engine}
use wealthboard.Adapter.Entries.{
  Host, TransferCreate, create_transfer, remove_transaction, is_in_group, stays,
}
use wealthboard.Adapter.Found.{next, ==_refl}
use wealthboard.Adapter.Transfer.{create_transfer-TransferOf}

-- An id and a group that no transaction has yet.
abbrev pub Unused : ℕ → ℕ → List TxnRecord → Type 0
Unused id group ts =
    All (λ t. ((t.id == id) ≡ false) × (is_in_group group t.transfer_group_id ≡ false)) ts

find-behind :
    (id group : ℕ) (ts : List TxnRecord) (t : TxnRecord) (rest : List TxnRecord)
    → Unused id group ts
    → (t.id == id) ≡ true
    → find (λ x. x.id == id) (ts ++ t ∷ rest) ≡ some t
find-behind id group [] t rest h k = rw k refl
find-behind id group (x ∷ ts) t rest h k = rw h.0.0 (find-behind id group ts t rest h.1 k)

keep-Unused :
    (id group : ℕ) (ts : List TxnRecord) → Unused id group ts → keep (stays id (some group)) ts ≡ ts
keep-Unused id group [] h = refl
keep-Unused id group (x ∷ ts) h = rw h.0.1 (ap (λ r. x ∷ r) (keep-Unused id group ts h.1))

undone :
    (id group : ℕ) (ts : List TxnRecord) (sent received : TxnRecord)
    → Unused id group ts
    → sent.transfer_group_id ≡ some group
    → received.transfer_group_id ≡ some group
    → keep (stays id (some group)) ((ts ++ sent ∷ []) ++ received ∷ []) ≡ ts
undone id group ts sent received h s r =
    rw
      (
        keep-append (stays id (some group)) (ts ++ sent ∷ []) (received ∷ []),
        keep-append (stays id (some group)) ts (sent ∷ []),
        s,
        r,
        ==_refl group,
        keep-Unused id group ts h,
      )
      (ap (λ r. r ++ []) (append-nil ts) ∙ append-nil ts)

removed :
    (id group : ℕ) (ts : List TxnRecord) (sent received : TxnRecord) (e : Engine)
    → e.world.transactions ≡ (ts ++ sent ∷ []) ++ received ∷ []
    → Unused id group ts
    → (sent.id == id) ≡ true
    → sent.transfer_group_id ≡ some group
    → received.transfer_group_id ≡ some group
    → (w' : World) × (remove_transaction id e ≡ ok w') × (w'.transactions ≡ ts)
unfolding remove_transaction
removed id group ts sent received e k h i s r =
    let found : find (λ t. t.id == id) e.world.transactions ≡ some sent =
      ap (find (λ t. t.id == id)) (k ∙ append_assoc ts (sent ∷ []) (received ∷ []))
      ∙ find-behind id group ts sent (received ∷ []) h i in
    (
      record e.world { transactions = keep (stays id sent.transfer_group_id) e.world.transactions },
      rw (remove_transaction, found) refl,
      ap₂ (λ g xs. keep (stays id g) xs) s k ∙ undone id group ts sent received h s r,
    )

-- To remove the transaction whose id the creation of a transfer has returned, when `randomId` gave an
-- id and a group that were not in use, leaves the transactions as they were before the transfer.
pub remove_transaction-create_transfer :
    (h : Host) (body : TransferCreate) (e : Engine) (w : World)
    → Unused (h.random_id 1) (h.random_id 0) e.world.transactions
    → create_transfer h body e ≡ ok w
    → (w' : World) × (remove_transaction (h.random_id 1) (next e w) ≡ ok w')
      × (w'.transactions ≡ e.world.transactions)
remove_transaction-create_transfer h body e w unused k =
    let (from, to, source, dest, different, f, t, s, d, day, sent, received, es, er, ew) =
      create_transfer-TransferOf h body e k in
    removed (h.random_id 1) (h.random_id 0) e.world.transactions sent received (next e w)
      (ap (λ (v : World). v.transactions) ew) unused (rw es (==_refl (h.random_id 1)))
      (ap (λ (x : TxnRecord). x.transfer_group_id) es)
      (ap (λ (x : TxnRecord). x.transfer_group_id) er)

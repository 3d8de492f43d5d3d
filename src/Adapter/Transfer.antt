-- ===== src/Adapter/Transfer.antt =====
-- `transfers.create` of adapter.ts, and `cashAt` after it.
use wealthboard.Base.{
  ℕ, suc, ◌≤◌, ◌≡◌, refl, sym, ap, ap₂, ◌∙◌, subst, Bool, true, false, ◌&&◌, Bool-cases, inl, inr,
  Option, none, some, [], ◌∷◌, ◌++◌, ltb, leb, pos_part, neg_part, ◌==◌, if◌then◌else◌, ℤ, pos, neg,
  ◌+ℤ◌, ◌<ℤ◌, int_laws, Text, same, codes, ok, invalid, throw_if, >>=-eq-ok, throw_if-passes,
  ok-injective,
}
use wealthboard.World.{TxnRecord, AccountRecord, World}
use wealthboard.Engine.Ledgers.{Engine, txn_effect}
use wealthboard.Engine.Values.{cash_at}
use wealthboard.Adapter.Entries.{
  Host, positive_minor, find_account, push_txn, arrives, TransferCreate, create_transfer, side,
  described_as,
}
use wealthboard.Adapter.Found.{
  next, cash_at-push_txn, find_account-found, positive_minor-positive, in_time, ==_refl, ==_sym,
}

arrives-positive :
    (text : Option Text) (one_currency : Bool) (source : ℤ) {dest : ℤ}
    → pos 0 <ℤ source
    → arrives text one_currency source ≡ ok dest
    → pos 0 <ℤ dest
unfolding arrives
arrives-positive none true source p h = subst (λ (x : ℤ). pos 0 <ℤ x) (ok-injective h) p
arrives-positive none false source p h = cc
arrives-positive (some []) true source p h = subst (λ (x : ℤ). pos 0 <ℤ x) (ok-injective h) p
arrives-positive (some []) false source p h = cc
arrives-positive (some (c ∷ s)) one_currency source p h = positive_minor-positive (c ∷ s) h

-- What a transfer that succeeds has found and written.
abbrev pub TransferOf : Host → TransferCreate → Engine → World → Type 0
TransferOf h body e w =
    (from : AccountRecord) × (to : AccountRecord) × (source : ℤ) × (dest : ℤ)
    × ((body.from_account_id == body.to_account_id) ≡ false)
    × (find_account e.world body.from_account_id ≡ ok from)
    × (find_account e.world body.to_account_id ≡ ok to)
    × (positive_minor body.source_amount_minor ≡ ok source)
    × (arrives body.destination_amount_minor (same from.currency to.currency) source ≡ ok dest)
    × (body.transaction_date ≤ e.today)
    × (sent : TxnRecord) × (received : TxnRecord) × (sent
        ≡ side (h.random_id 1) (h.random_id 0) from.id (neg source) body.transaction_date
            e.world.seq (described_as body.description (codes "To " ++ to.name)) h.now)
    × (received
        ≡ side (h.random_id 2) (h.random_id 0) to.id dest body.transaction_date (suc e.world.seq)
            (described_as body.description (codes "From " ++ from.name)) h.now)
    × (w ≡ push_txn received (push_txn sent e.world))

pub create_transfer-TransferOf :
    (h : Host) (body : TransferCreate) (e : Engine) {w : World}
    → create_transfer h body e ≡ ok w
    → TransferOf h body e w
unfolding create_transfer
create_transfer-TransferOf h body e {w} k =
    let (u1, p1, k1) =
      >>=-eq-ok (throw_if (body.from_account_id == body.to_account_id) invalid) _ k in
    let (from, p2, k2) = >>=-eq-ok (find_account e.world body.from_account_id) _ k1 in
    let (to, p3, k3) = >>=-eq-ok (find_account e.world body.to_account_id) _ k2 in
    let (source, p4, k4) = >>=-eq-ok (positive_minor body.source_amount_minor) _ k3 in
    let (dest, p5, k5) =
      >>=-eq-ok (arrives body.destination_amount_minor (same from.currency to.currency) source) _
        k4 in
    let (u6, p6, k6) = >>=-eq-ok (throw_if (ltb e.today body.transaction_date) invalid) _ k5 in
    (
      from,
      to,
      source,
      dest,
      throw_if-passes (body.from_account_id == body.to_account_id) invalid p1,
      p2,
      p3,
      p4,
      p5,
      in_time (throw_if-passes (ltb e.today body.transaction_date) invalid p6),
      _,
      _,
      refl,
      refl,
      sym (ok-injective k6),
    )

-- An amount that moves into an account on a day, as seen by an account on a date.
abbrev pub moved : ℕ → ℕ → ℤ → ℕ → ℕ → ℤ
moved account_id day amount id date = if account_id == id && leb day date then amount else pos 0

transfer_cash :
    (h : Host) (body : TransferCreate) (e : Engine) (w : World) (id date : ℕ)
    (p : TransferOf h body e w)
    → cash_at (next e w) id date
      ≡ cash_at e id date
        +ℤ moved body.from_account_id body.transaction_date (neg p.2) id date
        +ℤ moved body.to_account_id body.transaction_date p.3 id date
unfolding txn_effect
transfer_cash h body e w id date
      (from, to, source, dest, different, f, t, s, d, day, sent, received, es, er, ew) =
    rw
      (
        ew,
        cash_at-push_txn (next e (push_txn sent e.world)) received id date,
        cash_at-push_txn e sent id date,
        es,
        er,
      )
      (rw
        (
          (find_account-found e.world body.from_account_id f).0,
          (find_account-found e.world body.to_account_id t).0,
        )
        refl)

cancel : (u v x y : ℤ) → x +ℤ y ≡ pos 0 → u +ℤ x +ℤ pos 0 +ℤ (v +ℤ pos 0 +ℤ y) ≡ u +ℤ v
cancel u v x y h = omega (int_laws, ap pos_part h, ap neg_part h)

moved_other : (a day : ℕ) (x : ℤ) (b date : ℕ) → (a == b) ≡ false → moved a day x b date ≡ pos 0
moved_other a day x b date h = rw h refl

moved_pair :
    (a day : ℕ) (x : ℤ) (b date : ℕ) → moved a day (neg x) a date +ℤ moved b day x b date ≡ pos 0
moved_pair a day x b date =
    rw (==_refl a, ==_refl b)
      (elim (Bool-cases (leb day date)) [
        | inl k ↦ rw k (omega int_laws)
        | inr k ↦ rw k (omega int_laws)
      ])

arrives_same :
    (text : Option Text) (one_currency : Bool) (source : ℤ) {dest : ℤ}
    → text ≡ none
    → one_currency ≡ true
    → arrives text one_currency source ≡ ok dest
    → dest ≡ source
unfolding arrives
arrives_same none true source n c h = sym (ok-injective h)
arrives_same none false source n c h = absurd (cc c)
arrives_same (some t) b source n c h = absurd (cc n)

-- A transfer that succeeds takes the amount of its source text, which is positive, from one account
-- and brings an amount that is positive to the other, from its date on; the cash of every account on
-- every date is otherwise what it was.
pub create_transfer-cash_at :
    (h : Host) (body : TransferCreate) (e : Engine) (w : World) (id date : ℕ)
    → create_transfer h body e ≡ ok w
    → (source : ℤ) × (dest : ℤ) × (positive_minor body.source_amount_minor ≡ ok source)
      × (pos 0 <ℤ source)
      × (pos 0 <ℤ dest)
      × (cash_at (next e w) id date
          ≡ cash_at e id date
            +ℤ moved body.from_account_id body.transaction_date (neg source) id date
            +ℤ moved body.to_account_id body.transaction_date dest id date)
create_transfer-cash_at h body e w id date k =
    let p = create_transfer-TransferOf h body e k in
    let positive = positive_minor-positive body.source_amount_minor p.7 in
    (
      p.2,
      p.3,
      p.7,
      positive,
      arrives-positive body.destination_amount_minor (same p.0.currency p.1.currency) p.2 positive
          p.8,
      transfer_cash h body e w id date p,
    )

-- Nothing is lost on the way: in one currency and without another amount at the destination, the
-- cash of the two accounts together is on every date what it was before the transfer.
pub create_transfer_conserves :
    (h : Host) (body : TransferCreate) (e : Engine) (w : World) (from to : AccountRecord) (date : ℕ)
    → find_account e.world body.from_account_id ≡ ok from
    → find_account e.world body.to_account_id ≡ ok to
    → same from.currency to.currency ≡ true
    → body.destination_amount_minor ≡ none
    → create_transfer h body e ≡ ok w
    → cash_at (next e w) body.from_account_id date +ℤ cash_at (next e w) body.to_account_id date
      ≡ cash_at e body.from_account_id date +ℤ cash_at e body.to_account_id date
create_transfer_conserves h body e w from to date f t c n k =
    let p = create_transfer-TransferOf h body e k in
    let day = body.transaction_date in
    let a = body.from_account_id in
    let b = body.to_account_id in
    let ef : p.0 ≡ from = ok-injective (sym p.5 ∙ f) in
    let et : p.1 ≡ to = ok-injective (sym p.6 ∙ t) in
    let one : same p.0.currency p.1.currency ≡ true =
      ap₂ (λ x y. same x.currency y.currency) ef et ∙ c in
    let whole : p.3 ≡ p.2 =
      arrives_same body.destination_amount_minor (same p.0.currency p.1.currency) p.2 n one p.8 in
    rw
      (
        transfer_cash h body e w a date p,
        transfer_cash h body e w b date p,
        whole,
        moved_other b day p.2 a date (==_sym a b p.4),
        moved_other a day (neg p.2) b date p.4,
      )
      (cancel (cash_at e a date) (cash_at e b date) (moved a day (neg p.2) a date)
        (moved b day p.2 b date) (moved_pair a day p.2 b date))

-- ===== src/Engine/Replay.antt =====
-- The replay in `valueAt` of engine.ts, and a description of its result.
use wealthboard.Base.{
  ℕ, ◌<◌, ◌≡◌, ◌≢◌, refl, sym, ap, ◌∙◌, subst, true, false, not, ◌||◌, arith, Bool-cases,
  Option-cases, inl, inr, Option, none, some, List, [], ◌∷◌, ltb, leb, if◌then◌else◌, All, ℤ, pos,
  ◌+ℤ◌, +ℤ-zero, zero-+ℤ, +ℤ_assoc, ok,
}
use wealthboard.World.{TxnRecord, ValuationRecord, AccountRecord, balance}
use wealthboard.Engine.Ledgers.{Engine, key_before, txns, valuations}
use wealthboard.Engine.Lookup.{account}
use wealthboard.Engine.Values.{effect, replay, value_at, plain_value}
use wealthboard.Engine.Order.{
  sum_over, Ascending, All-map, sum_over-zero, sum_over_same, KeyLe, key_before-KeyLe, KeyLe-trans,
  KeyLe-date,
}
use wealthboard.Engine.Cash.{TxnLe, ValuationLe, txns-Ascending, valuations-Ascending}

-- The last valuation up to a date.
unfoldable pub latest : ℕ → List ValuationRecord → Option ValuationRecord
latest date [] = none
latest date (v ∷ vs) = elim (latest date vs) [
  | some u ↦ some u
  | none ↦ if leb v.date date then some v else none
]

-- A transaction counts if it is not after the date, nor before the valuation.
abbrev pub counted : ℕ → TxnRecord → ℤ
counted date t = if ltb date t.date then pos 0 else effect t

abbrev pub counted_after : ℕ → ValuationRecord → TxnRecord → ℤ
counted_after date v t =
    if ltb date t.date || not (key_before v.date v.seq t.date t.seq) then pos 0 else effect t

-- The value by description.
unfoldable pub described : ℕ → ℤ → List TxnRecord → Option ValuationRecord → ℤ
described date value ts none = value +ℤ sum_over (counted date) ts
described date value ts (some v) = v.value_minor +ℤ sum_over (counted_after date v) ts

late_counted : (date : ℕ) (t : TxnRecord) → date < t.date → counted date t ≡ pos 0
late_counted date t h = ground arith

All-after :
    (v : ValuationRecord) (t : TxnRecord) (ts : List TxnRecord)
    → key_before v.date v.seq t.date t.seq ≡ true
    → All (TxnLe t) ts
    → All (λ u. key_before v.date v.seq u.date u.seq ≡ true) (t ∷ ts)
All-after v t ts h all = (
  h,
  All-map (TxnLe t) (λ u. key_before v.date v.seq u.date u.seq ≡ true) (λ u k. ground arith) ts all,
)

All-behind :
    (v : ValuationRecord) (t : TxnRecord) (ts : List TxnRecord)
    → key_before v.date v.seq t.date t.seq ≡ true
    → All (TxnLe t) ts
    → All (λ u. KeyLe v.date v.seq u.date u.seq) (t ∷ ts)
All-behind v t ts h all =
    All-map (λ u. key_before v.date v.seq u.date u.seq ≡ true)
      (λ u. KeyLe v.date v.seq u.date u.seq) (λ u k. key_before-KeyLe v.date v.seq u.date u.seq k)
      (t ∷ ts) (All-after v t ts h all)

module _ (date : ℕ) where
  All-late-txns :
      (d s : ℕ) (ts : List TxnRecord)
      → date < d
      → All (λ t. KeyLe d s t.date t.seq) ts
      → sum_over (counted date) ts ≡ pos 0
  All-late-txns d s ts h all = sum_over-zero (counted date) ts (
      All-map (λ t. KeyLe d s t.date t.seq) (λ t. counted date t ≡ pos 0)
        (λ t k. ground (arith, KeyLe-date d s t.date t.seq k)) ts all)

  latest-late :
      (d s : ℕ) (vs : List ValuationRecord)
      → date < d
      → All (λ v. KeyLe d s v.date v.seq) vs
      → latest date vs ≡ none
  unfolding latest
  latest-late d s [] h all = refl
  latest-late d s (v ∷ vs) h all = rw (latest-late d s vs h all.1) (ground arith)

  latest-cons_some :
      (v u : ValuationRecord) (vs : List ValuationRecord)
      → latest date vs ≡ some u
      → latest date (v ∷ vs) ≡ some u
  unfolding latest
  latest-cons_some v u vs h = rw h

  latest-cons_none :
      (v : ValuationRecord) (vs : List ValuationRecord)
      → latest date vs ≡ none
      → ltb date v.date ≡ false
      → latest date (v ∷ vs) ≡ some v
  unfolding latest
  latest-cons_none v vs h k = rw h (ground arith)

  -- The last valuation is one of the list.
  latest-All :
      (P : ValuationRecord → Type 0) (vs : List ValuationRecord) (u : ValuationRecord)
      → All P vs
      → latest date vs ≡ some u
      → P u
  unfolding latest
  latest-All P [] u all h = cc
  latest-All P (v ∷ vs) u all h = elim (Option-cases (latest date vs)) [
    | inr (w, e) ↦ latest-All P vs u all.1 (ground arith)
    | inl e ↦ elim (Bool-cases (leb v.date date)) [
      | inl early ↦ let same : v ≡ u = ground arith in subst P same all.0
      | inr late ↦ absurd (ground arith)
    ]
  ]

  -- The last of a list in order comes after its first.
  latest-after_first :
      (v u : ValuationRecord) (vs : List ValuationRecord)
      → Ascending ValuationLe (v ∷ vs)
      → latest date (v ∷ vs) ≡ some u
      → KeyLe v.date v.seq u.date u.seq
  latest-after_first v u vs h =
      latest-All (λ w. KeyLe v.date v.seq w.date w.seq) (v ∷ vs) u (ground arith, h.0)

  -- No valuation is left: the transactions that are left all come behind the last one taken.
  described_none-some :
      (value : ℤ) (v : ValuationRecord) (ts : List TxnRecord)
      → All (λ t. key_before v.date v.seq t.date t.seq ≡ true) ts
      → v.value_minor +ℤ sum_over (counted date) ts ≡ described date value ts (some v)
  unfolding described
  described_none-some value v ts h =
      ap (λ (s : ℤ). v.value_minor +ℤ s)
        (sum_over_same (counted date) (counted_after date v) ts (
          All-map (λ t. key_before v.date v.seq t.date t.seq ≡ true)
            (λ t. counted date t ≡ counted_after date v t) (λ t k. ground arith) ts h))

  -- One more transaction that counts.
  described_cons :
      (value : ℤ) (t : TxnRecord) (ts : List TxnRecord) (last : Option ValuationRecord)
      → ltb date t.date ≡ false
      → ((v : ValuationRecord) → last ≡ some v → key_before v.date v.seq t.date t.seq ≡ false)
      → described date (value +ℤ effect t) ts last ≡ described date value (t ∷ ts) last
  unfolding described sum_over
  described_cons value t ts none early h =
      rw early (+ℤ_assoc value (effect t) (sum_over (counted date) ts))
  described_cons value t ts (some v) early h =
      rw (early, h v refl, zero-+ℤ (sum_over (counted_after date v) ts))

  -- To take a valuation up to the date forgets the value before it.
  take_valuation :
      (value : ℤ) (v : ValuationRecord) (ts : List TxnRecord) (vs : List ValuationRecord)
      → ltb date v.date ≡ false
      → All (λ t. key_before v.date v.seq t.date t.seq ≡ true) ts
      → described date v.value_minor ts (latest date vs)
        ≡ described date value ts (latest date (v ∷ vs))
  take_valuation value v ts vs early h = elim (Option-cases (latest date vs)) [
    | inl e ↦
        rw (e, latest-cons_none v vs e early) (unfold described in described_none-some value v ts h)
    | inr (u, e) ↦ rw (e, latest-cons_some v u vs e) (unfold described in refl)
  ]

  -- Where all that is left is late, the value stays.
  nothing_left :
      (value : ℤ) (d s : ℕ) (ts : List TxnRecord) (vs : List ValuationRecord)
      → date < d
      → All (λ t. KeyLe d s t.date t.seq) ts
      → All (λ v. KeyLe d s v.date v.seq) vs
      → value ≡ described date value ts (latest date vs)
  unfolding described
  nothing_left value d s ts vs h ht hv =
      rw (latest-late d s vs h hv, All-late-txns d s ts h ht) (sym (+ℤ-zero value))

  no_latest : (w : ValuationRecord) → latest date [] ≢ some w
  unfolding latest
  no_latest w h = cc

  -- The replay computes the description.
  replay-described :
      (value : ℤ) (ts : List TxnRecord) (vs : List ValuationRecord)
      → Ascending TxnLe ts
      → Ascending ValuationLe vs
      → replay date value ts vs ≡ described date value ts (latest date vs)
  unfolding replay
  replay-described value [] [] ht hv = unfold described sum_over latest in sym (+ℤ-zero value)
  replay-described value [] (v ∷ vs) ht hv = elim (Bool-cases (ltb date v.date)) [
    | inl late ↦
        rw late (nothing_left value v.date v.seq [] (v ∷ vs) (ground arith) tt (ground arith, hv.0))
    | inr early ↦
        rw early
          (replay-described v.value_minor [] vs tt hv.1 ∙ take_valuation value v [] vs early tt)
  ]
  replay-described value (t ∷ ts) [] ht hv = elim (Bool-cases (ltb date t.date)) [
    | inl late ↦
        rw late (nothing_left value t.date t.seq (t ∷ ts) [] (ground arith) (ground arith, ht.0) tt)
    | inr early ↦ rw early (
        replay-described (value +ℤ effect t) ts [] ht.1 tt
        ∙ described_cons value t ts (latest date []) early (λ w h. absurd (no_latest w h)))
  ]
  replay-described value (t ∷ ts) (v ∷ vs) ht hv =
      elim (Bool-cases (key_before v.date v.seq t.date t.seq)) [
        | inl first ↦ rw first (elim (Bool-cases (ltb date v.date)) [
          | inl late ↦ rw late (
              nothing_left value v.date v.seq (t ∷ ts) (v ∷ vs) (ground arith)
                (All-behind v t ts first ht.0) (ground arith, hv.0))
          | inr early ↦ rw early (
              replay-described v.value_minor (t ∷ ts) vs ht hv.1
              ∙ take_valuation value v (t ∷ ts) vs early (All-after v t ts first ht.0))
        ])
        | inr second ↦ rw second (elim (Bool-cases (ltb date t.date)) [
          | inl late ↦ rw late (
              nothing_left value t.date t.seq (t ∷ ts) (v ∷ vs) (ground arith) (ground arith, ht.0)
                (
                  second,
                  All-map (ValuationLe v) (λ w. KeyLe t.date t.seq w.date w.seq)
                      (λ w. KeyLe-trans t.date t.seq v.date v.seq w.date w.seq second) vs hv.0,
                ))
          | inr early ↦ rw early (
              replay-described (value +ℤ effect t) ts (v ∷ vs) ht.1 hv
              ∙ described_cons value t ts (latest date (v ∷ vs)) early (λ w h.
                KeyLe-trans t.date t.seq v.date v.seq w.date w.seq second
                  (latest-after_first v w vs hv h)))
        ])
      ]

-- The value of a value-tracked account on a date is its last valuation up to that date plus the
-- effects of the transactions that are dated up to it and behind that valuation; without such a
-- valuation, it is the sum of all effects up to the date.
pub value_at-balance :
    (e : Engine) (account_id date : ℕ) (a : AccountRecord)
    → account e account_id ≡ some a
    → a.tracking_mode ≡ balance
    → value_at e account_id date
      ≡ ok (
          plain_value
            (described date (pos 0) (txns e account_id) (latest date (valuations e account_id))))
unfolding value_at
value_at-balance e account_id date a h m =
    rw (h, value_at)
      (rw (m, value_at)
        (ap (λ (v : ℤ). ok (plain_value v))
          (replay-described date (pos 0) (txns e account_id) (valuations e account_id)
            (txns-Ascending e account_id) (valuations-Ascending e account_id))))

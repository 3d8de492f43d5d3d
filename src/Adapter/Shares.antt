-- ===== src/Adapter/Shares.antt =====
-- `upsertResiduary` of adapter.ts and `projectedTierTotal` of the estate's model.ts.
use wealthboard.Base.{
  ℕ, ◌+◌, ◌≤◌, ◌≡◌, ◌==◌, refl, sym, ap, ◌∙◌, subst, Bool, true, false, arith, Bool-cases, inl, inr,
  List, [], ◌∷◌, ◌++◌, if◌then◌else◌, any, keep, length, ok, throw_if, >>=-eq-ok, ok-injective,
  invalid,
}
use wealthboard.Adapter.Entries.{update_first}
use wealthboard.Estate.{
  Tier, primary, contingent, same_tier, TierRow, tier_total, others_total, projected_tier_total,
  is_none,
}
use wealthboard.Adapter.Wills.{SideState, put_share, with_bps, is_share, share_of, upsert_residuary}

swap : (s b c : ℕ) → s + b + c ≡ s + c + b
swap s b c = omega arith

tier_total-add :
    (s b : ℕ) (rows : List TierRow) (t : Tier) → tier_total (s + b) rows t ≡ tier_total s rows t + b
unfolding tier_total
tier_total-add s b [] t = refl
tier_total-add s b (r ∷ rows) t = elim (Bool-cases (same_tier r.tier t)) [
  | inl k ↦ rw k (
      ap (λ n. tier_total n rows t) (swap s b r.allocation_bps)
      ∙ tier_total-add (s + r.allocation_bps) b rows t)
  | inr k ↦ rw k (tier_total-add s b rows t)
]

tier_total-append :
    (s : ℕ) (rows : List TierRow) (r : TierRow) (t : Tier)
    → same_tier r.tier t ≡ true
    → tier_total s (rows ++ r ∷ []) t ≡ tier_total s rows t + r.allocation_bps
unfolding tier_total
tier_total-append s [] r t k = rw k refl
tier_total-append s (x ∷ rows) r t k =
    tier_total-append (if same_tier x.tier t then s + x.allocation_bps else s) rows r t k

true_is_not : true ≡ false → 1 ≤ 0
true_is_not h = absurd (cc h)

-- Without a row of the beneficiary, all rows of the tier are of others.
others_total-none :
    (s : ℕ) (rows : List TierRow) (t : Tier) (b : ℕ)
    → any (is_share b t) rows ≡ false
    → others_total s rows t b ≡ tier_total s rows t
unfolding others_total tier_total
others_total-none s [] t b h = refl
others_total-none s (r ∷ rows) t b h = elim (Bool-cases (r.beneficiary_id == b)) [
  | inl eb ↦ elim (Bool-cases (same_tier r.tier t)) [
    | inl et ↦ absurd (let k = true_is_not (rw (eb, et) at h) in omega arith)
    | inr et ↦ rw (eb, et) (others_total-none s rows t b (rw (eb, et) at h))
  ]
  | inr eb ↦ elim (Bool-cases (same_tier r.tier t)) [
    | inl et ↦ rw (eb, et) (others_total-none (s + r.allocation_bps) rows t b (rw eb at h))
    | inr et ↦ rw (eb, et) (others_total-none s rows t b (rw eb at h))
  ]
]

none_kept :
    (p : TierRow → Bool) (rows : List TierRow) → length (keep p rows) ≤ 0 → any p rows ≡ false
none_kept p [] h = refl
none_kept p (r ∷ rows) h = elim (Bool-cases (p r)) [
  | inl k ↦ absurd (let h' = rw k at h in omega arith)
  | inr k ↦ rw k (none_kept p rows (rw k at h))
]

replaced :
    (s : ℕ) (rows : List TierRow) (t : Tier) (b bps : ℕ)
    → any (is_share b t) rows ≡ true
    → length (keep (is_share b t) rows) ≤ 1
    → tier_total s (update_first (is_share b t) (with_bps bps) rows) t
      ≡ others_total s rows t b + bps
unfolding tier_total others_total
replaced s [] t b bps h k = absurd (ground arith)
replaced s (r ∷ rows) t b bps h k = elim (Bool-cases (r.beneficiary_id == b)) [
  | inl eb ↦ elim (Bool-cases (same_tier r.tier t)) [
    | inl et ↦
        let rest = none_kept (is_share b t) rows (omega (arith, rw (eb, et) at k)) in
        rw (eb, et)
          (subst
            (λ (c : Bool).
              tier_total (if c then s + bps else s) rows t ≡ others_total s rows t b + bps)
            (sym et)
            (tier_total-add s bps rows t
              ∙ ap (λ n. n + bps) (sym (others_total-none s rows t b rest))))
    | inr et ↦
        rw (eb, et)
          (subst
            (λ (c : Bool).
              tier_total (if c then s + r.allocation_bps else s)
                (update_first (is_share b t) (with_bps bps) rows) t
              ≡ others_total s rows t b + bps)
            (sym et) (replaced s rows t b bps (rw (eb, et) at h) (rw (eb, et) at k)))
  ]
  | inr eb ↦ elim (Bool-cases (same_tier r.tier t)) [
    | inl et ↦ rw (eb, et) (replaced (s + r.allocation_bps) rows t b bps (rw eb at h) (rw eb at k))
    | inr et ↦ rw (eb, et) (replaced s rows t b bps (rw eb at h) (rw eb at k))
  ]
]

same_tier_refl : (t : Tier) → same_tier t t ≡ true
same_tier_refl primary = refl
same_tier_refl contingent = refl

-- A beneficiary has at most one row of a tier.
abbrev pub AtMostOne : ℕ → Tier → List TierRow → Type 0
AtMostOne b t rows = length (keep (is_share b t) rows) ≤ 1

-- When a beneficiary has at most one residuary row of the tier, the tier's total after the share is
-- saved is what `projectedTierTotal` computes before.
pub upsert_residuary-projected_tier_total :
    (b : ℕ) (t : Tier) (bps : ℕ) (s s' : SideState)
    → AtMostOne b t s.residuary
    → upsert_residuary b t bps s ≡ ok s'
    → tier_total 0 s'.residuary t ≡ projected_tier_total s.residuary t b bps
unfolding upsert_residuary put_share projected_tier_total
upsert_residuary-projected_tier_total b t bps s s' one h =
    let (u, p, q) = >>=-eq-ok (throw_if (is_none s.plan) invalid) _ h in
    rw (ap (λ (x : SideState). x.residuary) (sym (ok-injective q)))
      (elim (Bool-cases (any (is_share b t) s.residuary)) [
        | inl k ↦ rw k (replaced 0 s.residuary t b bps k one)
        | inr k ↦ rw k (
            tier_total-append 0 s.residuary (share_of 0 b t bps) t (same_tier_refl t)
            ∙ ap (λ n. n + bps) (sym (others_total-none 0 s.residuary t b k)))
      ])

-- ===== src/Estate/Complete.antt =====
-- `isMathematicallyComplete` and `assetStatus` of the estate's model.ts.
use wealthboard.Base.{
  ℕ, ◌≡◌, refl, sym, ◌∙◌, Bool, true, false, not, ◌&&◌, ◌||◌, arith, Bool-cases, Option-cases, ◌⊎◌,
  inl, inr, Option, some, List, [], ◌∷◌, ◌++◌, any, All, if◌then◌else◌, ltb, ◌==◌,
}
use wealthboard.Estate.{
  AssetRow, EstateView, excluded, covered, complete, asset_status, full_bps, EstateDirective,
  incomplete,
}
use wealthboard.Estate.Review.{
  ReviewItem, review_items, residue_items, all_asset_items, asset_items, directive_items,
  plan_items, is_mathematically_complete, is_math_code, is_blocking, is_partial, item_if,
  ReviewCode, allocation_incomplete, allocation_over, contingent_incomplete, blocking,
}

-- An item that stands in the way.
abbrev gap : ReviewItem → Bool
gap i = is_blocking i.severity && is_math_code i.code

any-append {ℓ} :
    {A : Type ℓ} (p : A → Bool) (xs ys : List A) → any p (xs ++ ys) ≡ (any p xs || any p ys)
any-append p [] ys = refl
any-append p (x ∷ xs) ys = elim (Bool-cases (p x)) [
  | inl k ↦ ground arith
  | inr k ↦ ground (arith, any-append p xs ys)
]

or_left : (a b : Bool) → (a || b) ≡ false → a ≡ false
or_left false b h = refl
or_left true b h = absurd (ground arith)

or_right : (a b : Bool) → (a || b) ≡ false → b ≡ false
or_right false b h = h
or_right true b h = absurd (ground arith)

-- An asset that has no gap is left out of the plan, covered by the residue, or complete.
abbrev pub Settled : AssetRow → ℕ → Type 0
Settled row residue =
    (asset_status row residue ≡ excluded)
    ⊎ (asset_status row residue ≡ covered)
    ⊎ (asset_status row residue ≡ complete)

gap_if :
    (b : Bool) (code : ReviewCode) (id : Option ℕ)
    → is_math_code code ≡ true
    → any gap (item_if b code blocking id) ≡ b
gap_if false code id k = refl
gap_if true code id k = rw k refl

directive_gaps :
    (view : EstateView) (row : AssetRow) (d : EstateDirective)
    → any gap (directive_items view row d) ≡ false
    → ((ltb row.primary_bps full_bps && not (view.residuary_primary_bps == full_bps)) ≡ false)
      × (ltb full_bps row.primary_bps ≡ false)
      × (is_partial row.contingent_bps ≡ false)
unfolding directive_items
directive_gaps view row d h =
    let id = some row.account.id in
    let short = ltb row.primary_bps full_bps && not (view.residuary_primary_bps == full_bps) in
    let i1 = item_if short allocation_incomplete blocking id in
    let i2 = item_if (ltb full_bps row.primary_bps) allocation_over blocking id in
    let i3 = item_if (is_partial row.contingent_bps) contingent_incomplete blocking id in
    let h1 = sym (any-append gap i1 _) ∙ h in
    let h2 = sym (any-append gap i2 _) ∙ or_right (any gap i1) _ h1 in
    let h3 = sym (any-append gap i3 _) ∙ or_right (any gap i2) _ h2 in
    (
      sym (gap_if short allocation_incomplete id refl) ∙ or_left (any gap i1) _ h1,
      sym (gap_if (ltb full_bps row.primary_bps) allocation_over id refl)
          ∙ or_left (any gap i2) _ h2,
      sym (gap_if (is_partial row.contingent_bps) contingent_incomplete id refl)
          ∙ or_left (any gap i3) _ h3,
    )

whole_contingent : (c : ℕ) → is_partial c ≡ false → (c == 0 || c == full_bps) ≡ true
whole_contingent c h = ground arith

standing :
    (p c r : ℕ)
    → (ltb p full_bps && not (r == full_bps)) ≡ false
    → ltb full_bps p ≡ false
    → is_partial c ≡ false
    → ((if p == full_bps && (c == 0 || c == full_bps)
          then complete
          else if ltb p full_bps && r == full_bps && (c == 0 || c == full_bps)
          then covered
          else incomplete)
        ≡ covered)
      ⊎ ((if p == full_bps && (c == 0 || c == full_bps)
            then complete
            else if ltb p full_bps && r == full_bps && (c == 0 || c == full_bps)
            then covered
            else incomplete)
          ≡ complete)
standing p c r short over partial =
    rw (whole_contingent c partial) (elim (Bool-cases (p == full_bps)) [
      | inl k ↦ rw k (inr refl)
      | inr k ↦
          let less : ltb p full_bps ≡ true = ground arith in
          let residue : (r == full_bps) ≡ true = ground arith in rw (k, less, residue) (inl refl)
    ])

settled :
    (view : EstateView) (row : AssetRow)
    → any gap (asset_items view row) ≡ false
    → Settled row view.residuary_primary_bps
unfolding asset_items asset_status
settled view row h = elim (Bool-cases row.is_included) [
  | inr out ↦ rw out (inl refl)
  | inl kept ↦ elim (Option-cases row.directive) [
    | inl never ↦ absurd (ground arith)
    | inr (d, found) ↦
        let gaps : any gap (directive_items view row d) ≡ false = ground arith in
        let (short, over, partial) = directive_gaps view row d gaps in
        rw (kept, found)
          (inr (
            standing row.primary_bps row.contingent_bps view.residuary_primary_bps short over
              partial))
  ]
]

All-Settled :
    (view : EstateView) (rows : List AssetRow)
    → any gap (all_asset_items view rows) ≡ false
    → All (λ row. Settled row view.residuary_primary_bps) rows
unfolding all_asset_items
All-Settled view [] h = tt
All-Settled view (row ∷ rows) h =
    let k = sym (any-append gap (asset_items view row) (all_asset_items view rows)) ∙ h in
    (
      settled view row (or_left (any gap (asset_items view row)) _ k),
      All-Settled view rows (or_right (any gap (asset_items view row)) _ k),
    )

-- If the review of a plan has no blocking item with a mathematical code, then every asset of the
-- view is excluded from the plan, covered by a complete residue, or complete; none is unconfigured or
-- incomplete.
pub is_mathematically_complete-Settled :
    (view : EstateView) (today : ℕ)
    → is_mathematically_complete (review_items view today) ≡ true
    → All (λ row. Settled row view.residuary_primary_bps) view.assets
unfolding is_mathematically_complete review_items
is_mathematically_complete-Settled view today h =
    let none_left : any gap
          (residue_items view ++ (all_asset_items view view.assets ++ plan_items view today))
        ≡ false =
      ground arith in
    let k = sym (any-append gap (residue_items view) _) ∙ none_left in
    let k' =
      sym (any-append gap (all_asset_items view view.assets) (plan_items view today))
      ∙ or_right (any gap (residue_items view)) _ k in
    All-Settled view view.assets (or_left (any gap (all_asset_items view view.assets)) _ k')

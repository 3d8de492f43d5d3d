-- ===== src/Estate/Review.antt =====
-- web/src/features/estate/model.ts: `reviewItems`, `isMathematicallyComplete` and `beneficiaryRoles`.
-- The texts of the items are left out.
use wealthboard.Base.{
  ℕ, ◌+◌, Bool, true, false, not, ◌&&◌, Option, none, some, List, [], ◌∷◌, ◌++◌, map, ltb, leb,
  ◌==◌, if◌then◌else◌, keep, any, length, is_zero, Text,
}
use wealthboard.Estate.{
  full_bps, same_tier, is_none, TransferContext, DistributionMethod, Beneficiary, EstateDirective,
  TierRow, EstatePlan, AssetRow, EstateView, primary, contingent, unknown, transfer_asset,
  undecided,
}

pub data ReviewCode : Type 0 where
  no_beneficiaries archived_residual_beneficiary residue_incomplete : ReviewCode
  residue_contingent_incomplete asset_unconfigured allocation_incomplete : ReviewCode
  allocation_over contingent_incomplete archived_beneficiary : ReviewCode
  transfer_context_unknown distribution_undecided shared_title_review zero_value : ReviewCode
  liabilities_review plan_not_reviewed review_due : ReviewCode

pub data Severity : Type 0 where
  blocking warning : Severity

pub record ReviewItem : Type 0 where
  pub code : ReviewCode
  pub severity : Severity
  pub account_id : Option ℕ

-- `if (c) items.push({ code, severity, accountId })`
abbrev pub item_if : Bool → ReviewCode → Severity → Option ℕ → List ReviewItem
item_if false code severity account_id = []
item_if true code severity account_id =
    record { code = code; severity = severity; account_id = account_id } ∷ []

abbrev pub is_archived : Option Beneficiary → Bool
is_archived none = false
is_archived (some b) = not (is_none b.archived_at)

-- `beneficiaryById.get(id)`: the map keeps the last of the beneficiaries with one id.
abbrev pub beneficiary_by_id : ℕ → List Beneficiary → Option Beneficiary
beneficiary_by_id id [] = none
beneficiary_by_id id (b ∷ bs) = elim (beneficiary_by_id id bs) [
  | some later ↦ some later
  | none ↦ if b.id == id then some b else none
]

abbrev pub is_archived_id : EstateView → ℕ → Bool
is_archived_id view id = is_archived (beneficiary_by_id id view.beneficiaries)

abbrev pub is_partial : ℕ → Bool
is_partial bps = ltb 0 bps && not (bps == full_bps)

-- The items about the residue and the beneficiaries
unfoldable pub residue_items : EstateView → List ReviewItem
residue_items view =
    item_if (length view.active_beneficiaries == 0) no_beneficiaries blocking none
    ++ (item_if (any (λ r. is_archived_id view r.beneficiary_id) view.residuary)
          archived_residual_beneficiary blocking none
        ++ (item_if (is_partial view.residuary_primary_bps) residue_incomplete blocking none
            ++ item_if (is_partial view.residuary_contingent_bps) residue_contingent_incomplete
                blocking none))

abbrev pub is_unknown : TransferContext → Bool
is_unknown unknown = true
is_unknown _ = false

abbrev pub is_undecided : DistributionMethod → Bool
is_undecided undecided = true
is_undecided _ = false

abbrev pub is_shared : DistributionMethod → List TierRow → Bool
is_shared transfer_asset rows = ltb 1 (length (keep (λ a. same_tier a.tier primary) rows))
is_shared _ rows = false

-- The items about an asset that has a directive
unfoldable pub directive_items : EstateView → AssetRow → EstateDirective → List ReviewItem
directive_items view row d =
    let id = some row.account.id in
    item_if (ltb row.primary_bps full_bps && not (view.residuary_primary_bps == full_bps))
      allocation_incomplete blocking id
    ++ (item_if (ltb full_bps row.primary_bps) allocation_over blocking id
        ++ (item_if (is_partial row.contingent_bps) contingent_incomplete blocking id
            ++ (item_if (any (λ a. is_archived_id view a.beneficiary_id) row.allocations)
                  archived_beneficiary blocking id
                ++ (item_if (is_unknown d.transfer_context) transfer_context_unknown warning id
                    ++ (item_if (is_undecided d.distribution_method) distribution_undecided warning
                          id
                        ++ (item_if (is_shared d.distribution_method row.allocations)
                              shared_title_review warning id
                            ++ item_if (is_zero row.account.current_value_minor) zero_value warning
                                id))))))

-- The items of one round over the assets
abbrev pub items_by : EstateView → AssetRow → Option EstateDirective → List ReviewItem
items_by view row none = item_if true asset_unconfigured blocking (some row.account.id)
items_by view row (some d) = directive_items view row d

unfoldable pub asset_items : EstateView → AssetRow → List ReviewItem
asset_items view row = if not row.is_included then [] else items_by view row row.directive

unfoldable pub all_asset_items : EstateView → List AssetRow → List ReviewItem
all_asset_items view [] = []
all_asset_items view (row ∷ rows) = asset_items view row ++ all_asset_items view rows

abbrev pub is_reviewed : Option EstatePlan → Bool
is_reviewed none = false
is_reviewed (some p) = not (is_none p.last_reviewed_date)

abbrev pub is_by : Option ℕ → ℕ → Bool
is_by none today = false
is_by (some d) today = leb d today

abbrev pub is_due : Option EstatePlan → ℕ → Bool
is_due none today = false
is_due (some p) today = is_by p.review_reminder_date today

-- The items about the plan
unfoldable pub plan_items : EstateView → ℕ → List ReviewItem
plan_items view today =
    item_if (ltb 0 (length view.liabilities)) liabilities_review warning none
    ++ (item_if (not (is_reviewed view.workspace.plan)) plan_not_reviewed warning none
        ++ item_if (is_due view.workspace.plan today) review_due warning none)

-- `reviewItems`
unfoldable pub review_items : EstateView → ℕ → List ReviewItem
review_items view today =
    residue_items view ++ (all_asset_items view view.assets ++ plan_items view today)

-- `MATH_CODES.has(code)`
abbrev pub is_math_code : ReviewCode → Bool
is_math_code transfer_context_unknown = false
is_math_code distribution_undecided = false
is_math_code shared_title_review = false
is_math_code zero_value = false
is_math_code liabilities_review = false
is_math_code plan_not_reviewed = false
is_math_code review_due = false
is_math_code _ = true

abbrev pub is_blocking : Severity → Bool
is_blocking blocking = true
is_blocking warning = false

-- `isMathematicallyComplete`
unfoldable pub is_mathematically_complete : List ReviewItem → Bool
is_mathematically_complete items =
    not (any (λ i. is_blocking i.severity && is_math_code i.code) items)

-- Where a beneficiary is named.
pub record BeneficiaryRole : Type 0 where
  pub beneficiary : Beneficiary
  pub primary_shares : List (Text × ℕ)
  pub contingent_shares : List (Text × ℕ)
  pub residuary_primary_bps : ℕ
  pub residuary_contingent_bps : ℕ

-- `role[a.tier].push(…)`
unfoldable pub add_share : ℕ → Text → BeneficiaryRole → TierRow → BeneficiaryRole
add_share id name role a =
    if a.beneficiary_id == id
    then elim a.tier [
      | primary ↦ record role {
        primary_shares = role.primary_shares ++ (name, a.allocation_bps) ∷ [];
      }
      | contingent ↦ record role {
        contingent_shares = role.contingent_shares ++ (name, a.allocation_bps) ∷ [];
      }
    ]
    else role

unfoldable pub add_residue : ℕ → BeneficiaryRole → TierRow → BeneficiaryRole
add_residue id role r = if not (r.beneficiary_id == id) then role else elim r.tier [
  | primary ↦ record role { residuary_primary_bps = role.residuary_primary_bps + r.allocation_bps }
  | contingent ↦ record role {
    residuary_contingent_bps = role.residuary_contingent_bps + r.allocation_bps;
  }
]

abbrev pub run_over {ℓ κ} : {S : Type ℓ} {A : Type κ} → (S → A → S) → S → List A → S
run_over step s [] = s
run_over step s (x ∷ xs) = run_over step (step s x) xs

unfoldable pub add_asset : ℕ → BeneficiaryRole → AssetRow → BeneficiaryRole
add_asset id role row =
    if not row.is_included
    then role
    else run_over (add_share id row.account.name) role row.allocations

abbrev pub no_role : Beneficiary → BeneficiaryRole
no_role b = record {
  beneficiary = b;
  primary_shares = [];
  contingent_shares = [];
  residuary_primary_bps = 0;
  residuary_contingent_bps = 0;
}

-- `beneficiaryRoles`
unfoldable pub beneficiary_roles : EstateView → List BeneficiaryRole
beneficiary_roles view =
    map
      (λ b.
        run_over (add_residue b.id) (run_over (add_asset b.id) (no_role b) view.assets)
          view.residuary)
      view.beneficiaries

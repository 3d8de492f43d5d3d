-- ===== src/Estate.antt =====
-- web/src/features/estate/model.ts: the shares of an estate plan in basis points, the standing of each
-- asset, and the review of the plan. The texts of messages and labels are left out: they print these
-- values. A share is a whole number of basis points that is not negative.
pub mod Review
pub mod Complete
use wealthboard.Base.{
  ℕ, suc, ◌+◌, ◌-◌, Bool, true, false, not, ◌&&◌, ◌||◌, Option, none, some, List, [], ◌∷◌, ◌++◌,
  map, ltb, leb, ◌==◌, if◌then◌else◌, keep, find, any, length, ℤ, is_zero, Text,
}

abbrev pub full_bps : ℕ
full_bps = 10000

pub data Tier : Type 0 where
  primary contingent : Tier

pub data TransferContext : Type 0 where
  estate joint_survivorship provider_designation trust_entity unknown : TransferContext

pub data DistributionMethod : Type 0 where
  transfer_asset sell_and_divide cash_equivalent undecided : DistributionMethod

-- What the model reads of an account of the API.
pub record EstateAccount : Type 0 where
  pub id : ℕ
  pub name : Text
  pub archived_at : Option ℕ
  pub is_liability : Bool
  pub is_included_in_net_worth : Bool
  pub current_value_minor : ℤ

pub record Beneficiary : Type 0 where
  pub id : ℕ
  pub name : Text
  pub archived_at : Option ℕ

pub record EstateDirective : Type 0 where
  pub id : ℕ
  pub account_id : ℕ
  pub is_included : Bool
  pub transfer_context : TransferContext
  pub distribution_method : DistributionMethod

-- A share of an asset, or of the residue.
pub record TierRow : Type 0 where
  pub directive_id : ℕ
  pub beneficiary_id : ℕ
  pub tier : Tier
  pub allocation_bps : ℕ

pub record EstatePlan : Type 0 where
  pub last_reviewed_date : Option ℕ
  pub review_reminder_date : Option ℕ

pub record EstateWorkspace : Type 0 where
  pub plan : Option EstatePlan
  pub beneficiaries : List Beneficiary
  pub directives : List EstateDirective
  pub allocations : List TierRow
  pub residuary_allocations : List TierRow

abbrev pub same_tier : Tier → Tier → Bool
same_tier primary primary = true
same_tier contingent contingent = true
same_tier primary contingent = false
same_tier contingent primary = false

-- `tierTotal`, from the sum so far
unfoldable pub tier_total : ℕ → List TierRow → Tier → ℕ
tier_total sum [] tier = sum
tier_total sum (r ∷ rows) tier =
    tier_total (if same_tier r.tier tier then sum + r.allocation_bps else sum) rows tier

-- The `reduce` of `projectedTierTotal`: the tier without the beneficiary
unfoldable pub others_total : ℕ → List TierRow → Tier → ℕ → ℕ
others_total sum [] tier beneficiary_id = sum
others_total sum (r ∷ rows) tier beneficiary_id =
    others_total
      (if same_tier r.tier tier && not (r.beneficiary_id == beneficiary_id)
        then sum + r.allocation_bps
        else sum)
      rows tier beneficiary_id

-- `projectedTierTotal`
unfoldable pub projected_tier_total : List TierRow → Tier → ℕ → ℕ → ℕ
projected_tier_total rows tier beneficiary_id bps = others_total 0 rows tier beneficiary_id + bps

pub data TierState : Type 0 where
  empty_tier : TierState
  under : ℕ → ℕ → TierState
  complete_tier : TierState
  over : ℕ → ℕ → TierState

-- `tierState`
unfoldable pub tier_state : ℕ → TierState
tier_state total =
    if leb total 0
    then empty_tier
    else if total == full_bps
    then complete_tier
    else if ltb full_bps total
    then over total (total - full_bps)
    else under total (full_bps - total)

pub record AssetRow : Type 0 where
  pub account : EstateAccount
  pub directive : Option EstateDirective
  pub is_included : Bool
  pub allocations : List TierRow
  pub primary_bps : ℕ
  pub contingent_bps : ℕ

pub record EstateView : Type 0 where
  pub workspace : EstateWorkspace
  pub beneficiaries : List Beneficiary
  pub active_beneficiaries : List Beneficiary
  pub assets : List AssetRow
  pub liabilities : List EstateAccount
  pub residuary : List TierRow
  pub residuary_primary_bps : ℕ
  pub residuary_contingent_bps : ℕ

abbrev pub is_none {ℓ} : {A : Type ℓ} → Option A → Bool
is_none none = true
is_none (some a) = false

abbrev pub allocations_of : List TierRow → Option EstateDirective → List TierRow
allocations_of rows none = []
allocations_of rows (some d) = keep (λ x. x.directive_id == d.id) rows

abbrev pub included_by : Option EstateDirective → Bool → Bool
included_by none default = default
included_by (some d) default = d.is_included

-- One row of the view: the asset of an account
unfoldable pub asset_row : EstateWorkspace → EstateAccount → AssetRow
asset_row w a =
    let directive = find (λ d. d.account_id == a.id) w.directives in
    let allocations = allocations_of w.allocations directive in
    record {
      account = a;
      directive = directive;
      is_included = included_by directive a.is_included_in_net_worth;
      allocations = allocations;
      primary_bps = tier_total 0 allocations primary;
      contingent_bps = tier_total 0 allocations contingent;
    }

-- `buildEstateView`
unfoldable pub build_estate_view : EstateWorkspace → List EstateAccount → EstateView
build_estate_view w accounts =
    let current = keep (λ a. is_none a.archived_at) accounts in
    record {
      workspace = w;
      beneficiaries = w.beneficiaries;
      active_beneficiaries = keep (λ b. is_none b.archived_at) w.beneficiaries;
      assets = map (asset_row w) (keep (λ a. not a.is_liability) current);
      liabilities = keep (λ a. a.is_liability) current;
      residuary = w.residuary_allocations;
      residuary_primary_bps = tier_total 0 w.residuary_allocations primary;
      residuary_contingent_bps = tier_total 0 w.residuary_allocations contingent;
    }

pub data AssetStatus : Type 0 where
  excluded unconfigured incomplete covered complete : AssetStatus

abbrev pub is_contingent_ok : AssetRow → Bool
is_contingent_ok row = row.contingent_bps == 0 || row.contingent_bps == full_bps

-- `assetStatus`
unfoldable pub asset_status : AssetRow → ℕ → AssetStatus
asset_status row residuary_primary_bps =
    if not row.is_included
    then excluded
    else if is_none row.directive
    then unconfigured
    else if row.primary_bps == full_bps && is_contingent_ok row
    then complete
    else if ltb row.primary_bps full_bps
        && residuary_primary_bps == full_bps
        && is_contingent_ok row
    then covered
    else incomplete

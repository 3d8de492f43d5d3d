-- ===== src/Adapter/Wills.antt =====
-- The handlers of `estate` in adapter.ts that write, on the state of side.ts. The ids of directives and
-- allocations are those that `randomId` gives; texts that nothing reads are left out.
use wealthboard.Base.{
  ℕ, ◌==◌, ◌&&◌, Bool, not, Option, none, some, List, [], ◌∷◌, ◌++◌, if◌then◌else◌, keep, any, find,
  Text, Result, ok, ◌>>=◌, ◌>>◌, throw_if, invalid, not_found, type_error,
}
use wealthboard.World.{World}
use wealthboard.Adapter.Entries.{Host, find_account, update_first}
use wealthboard.Estate.{
  Tier, same_tier, TierRow, Beneficiary, EstateDirective, EstatePlan, TransferContext,
  DistributionMethod, is_none,
}

-- `SideState`, the estate's part
pub record SideState : Type 0 where
  pub plan : Option EstatePlan
  pub beneficiaries : List Beneficiary
  pub directives : List EstateDirective
  pub allocations : List TierRow
  pub residuary : List TierRow

-- `updatePlan`
unfoldable pub update_plan : EstatePlan → SideState → SideState
update_plan body s = record s { plan = some body }

-- `createBeneficiary`
unfoldable pub create_beneficiary : Host → Text → SideState → SideState
create_beneficiary h name s = record s {
  beneficiaries =
      s.beneficiaries ++ record { id = h.random_id 0; name = name; archived_at = none } ∷ [];
}

abbrev pub rename : Text → Beneficiary → Beneficiary
rename name b = record b { name = name }

-- `updateBeneficiary`
unfoldable pub update_beneficiary : ℕ → Text → SideState → Result SideState
update_beneficiary id name s = do
  throw_if (not (any (λ b. b.id == id) s.beneficiaries)) not_found
  ok (record s { beneficiaries = update_first (λ b. b.id == id) (rename name) s.beneficiaries })

abbrev pub stamp_beneficiary : Bool → ℕ → Beneficiary → Beneficiary
stamp_beneficiary archived now b = record b { archived_at = if archived then some now else none }

-- `setBeneficiaryArchived`
unfoldable pub set_beneficiary_archived : Host → ℕ → Bool → SideState → Result SideState
set_beneficiary_archived h id archived s = do
  throw_if (not (any (λ b. b.id == id) s.beneficiaries)) not_found
  ok (record s {
    beneficiaries =
        update_first (λ b. b.id == id) (stamp_beneficiary archived h.now) s.beneficiaries;
  })

pub record DirectiveBody : Type 0 where
  pub is_included : Bool
  pub transfer_context : TransferContext
  pub distribution_method : DistributionMethod

-- `existing?.id ?? randomId()`
abbrev pub directive_id : Host → Option EstateDirective → ℕ
directive_id h none = h.random_id 0
directive_id h (some d) = d.id

abbrev pub new_directive : ℕ → ℕ → DirectiveBody → EstateDirective
new_directive id account_id body = record {
  id = id;
  account_id = account_id;
  is_included = body.is_included;
  transfer_context = body.transfer_context;
  distribution_method = body.distribution_method;
}

-- `upsertDirective`
unfoldable pub upsert_directive : Host → ℕ → DirectiveBody → World → SideState → Result SideState
upsert_directive h account_id body w s = do
  a ← find_account w account_id
  throw_if (is_none s.plan) invalid
  let id = directive_id h (find (λ d. d.account_id == account_id) s.directives)
  ok (record s {
    directives =
        keep (λ d. not (d.account_id == account_id)) s.directives
        ++ new_directive id account_id body ∷ [];
  })

abbrev pub with_bps : ℕ → TierRow → TierRow
with_bps bps r = record r { allocation_bps = bps }

-- The row of a beneficiary and a tier gets the share, or there is a new row.
unfoldable pub put_share : (TierRow → Bool) → ℕ → TierRow → List TierRow → List TierRow
put_share test bps new rows =
    if any test rows then update_first test (with_bps bps) rows else rows ++ new ∷ []

abbrev pub share_of : ℕ → ℕ → Tier → ℕ → TierRow
share_of directive_id beneficiary_id tier bps = record {
  directive_id = directive_id;
  beneficiary_id = beneficiary_id;
  tier = tier;
  allocation_bps = bps;
}

-- `a.beneficiaryId === body.beneficiaryId && a.tier === body.tier`
abbrev pub is_share : ℕ → Tier → TierRow → Bool
is_share beneficiary_id tier r = r.beneficiary_id == beneficiary_id && same_tier r.tier tier

-- `upsertAllocation`; without a plan, `side.plan!.id` of a new row throws.
unfoldable pub upsert_allocation : ℕ → ℕ → Tier → ℕ → SideState → Result SideState
upsert_allocation id beneficiary_id tier bps s = do
  throw_if (not (any (λ d. d.id == id) s.directives)) not_found
  throw_if
      (is_none s.plan
        && not (any (λ r. r.directive_id == id && is_share beneficiary_id tier r) s.allocations))
      type_error
  ok (record s {
    allocations =
        put_share (λ r. r.directive_id == id && is_share beneficiary_id tier r) bps
          (share_of id beneficiary_id tier bps) s.allocations;
  })

-- `upsertResiduary`; a residuary row has no directive.
unfoldable pub upsert_residuary : ℕ → Tier → ℕ → SideState → Result SideState
upsert_residuary beneficiary_id tier bps s = do
  throw_if (is_none s.plan) invalid
  ok (record s {
    residuary =
        put_share (is_share beneficiary_id tier) bps (share_of 0 beneficiary_id tier bps)
          s.residuary;
  })

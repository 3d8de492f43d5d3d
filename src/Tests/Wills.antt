-- ===== src/Tests/Wills.antt =====
-- The theorem on estate plans at a small plan.
use wealthboard.Base.{◌≡◌, refl, true, false, none, [], ◌∷◌, pos, codes, All}
use wealthboard.Estate.{
  EstateView, EstateAccount, EstateWorkspace, primary, build_estate_view, asset_row, tier_total,
  estate, transfer_asset,
}
use wealthboard.Estate.Review.{
  review_items, residue_items, all_asset_items, asset_items, directive_items, plan_items,
  is_mathematically_complete,
}
use wealthboard.Base.{ok, arith, some}
use wealthboard.Adapter.Wills.{SideState, share_of, upsert_residuary, put_share}
use wealthboard.Adapter.Shares.{upsert_residuary-projected_tier_total}
use wealthboard.Estate.{projected_tier_total}
use wealthboard.Estate.Complete.{Settled, is_mathematically_complete-Settled}

abbrev land : EstateAccount
land = record {
  id = 1;
  name = codes "Land";
  archived_at = none;
  is_liability = false;
  is_included_in_net_worth = true;
  current_value_minor = pos 500;
}

abbrev plan : EstateWorkspace
plan = record {
  plan = none;
  beneficiaries = record { id = 4; name = codes "A"; archived_at = none } ∷ [];
  directives =
      record {
        id = 2;
        account_id = 1;
        is_included = true;
        transfer_context = estate;
        distribution_method = transfer_asset;
      }
      ∷ [];
  allocations =
      record { directive_id = 2; beneficiary_id = 4; tier = primary; allocation_bps = 10000 } ∷ [];
  residuary_allocations = [];
}

abbrev view : EstateView
view = build_estate_view plan (land ∷ [])

no_gap : is_mathematically_complete (review_items view 20) ≡ true
unfolding is_mathematically_complete review_items residue_items all_asset_items asset_items
    directive_items plan_items build_estate_view asset_row tier_total
no_gap = refl

is_mathematically_complete-Settled_example :
    All (λ row. Settled row view.residuary_primary_bps) view.assets
is_mathematically_complete-Settled_example = is_mathematically_complete-Settled view 20 no_gap

abbrev will : SideState
will = record {
  plan = some (record { last_reviewed_date = none; review_reminder_date = none });
  beneficiaries = [];
  directives = [];
  allocations = [];
  residuary = share_of 0 4 primary 6000 ∷ share_of 0 5 primary 3000 ∷ [];
}

abbrev will_after : SideState
will_after = record will { residuary = share_of 0 4 primary 7000 ∷ share_of 0 5 primary 3000 ∷ [] }

saved : upsert_residuary 4 primary 7000 will ≡ ok will_after
unfolding upsert_residuary put_share
saved = refl

upsert_residuary-projected_tier_total_example :
    tier_total 0 will_after.residuary primary ≡ projected_tier_total will.residuary primary 4 7000
upsert_residuary-projected_tier_total_example =
    upsert_residuary-projected_tier_total 4 primary 7000 will will_after (omega arith) saved

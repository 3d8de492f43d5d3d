-- ===== src/Contract/Schemas/Wills.antt =====
-- web/src/api/schema.ts: the schemas for estate planning.
use wealthboard.Contract.{
  Shape, text, number, boolean, null, unknown, constant, list_of, one_of, object, required,
  optional, nil, ◌&◌,
}
use wealthboard.Contract.Schemas.Values.{minor_units}

abbrev pub estate_plan_input : Shape
estate_plan_input = object (
    required "title" text
    & optional "jurisdiction" text
    & optional "lastReviewedDate" (one_of text null)
    & optional "reviewReminderDate" (one_of text null)
    & nil)

abbrev pub beneficiary_input : Shape
beneficiary_input = object (
    required "kind"
      (one_of (constant "person") (one_of (constant "organization") (constant "trust")))
    & required "name" text
    & optional "relationship" text
    & optional "contactSummary" text
    & optional "notes" text
    & nil)

abbrev pub estate_directive_input : Shape
estate_directive_input = object (
    required "isIncluded" boolean
    & required "ownershipShareBps" number
    & required "transferContext" (
        one_of (constant "estate") (
          one_of (constant "joint_survivorship") (
            one_of (constant "provider_designation")
              (one_of (constant "trust_entity") (constant "unknown")))))
    & required "distributionMethod" (
        one_of (constant "transfer_asset") (
          one_of (constant "sell_and_divide")
            (one_of (constant "cash_equivalent") (constant "undecided"))))
    & optional "documentReference" text
    & optional "notes" text
    & optional "reviewedAt" (one_of text null)
    & nil)

abbrev pub estate_allocation_input : Shape
estate_allocation_input = object (
    required "beneficiaryId" text
    & required "tier" (one_of (constant "primary") (constant "contingent"))
    & required "allocationBps" number
    & optional "notes" text
    & nil)

abbrev pub estate_plan : Shape
estate_plan = object (
    required "id" text
    & required "title" text
    & required "jurisdiction" (one_of text null)
    & required "lastReviewedDate" (one_of text null)
    & required "reviewReminderDate" (one_of text null)
    & required "createdAt" text
    & required "updatedAt" text
    & nil)

abbrev pub beneficiary : Shape
beneficiary = object (
    required "id" text
    & required "kind"
        (one_of (constant "person") (one_of (constant "organization") (constant "trust")))
    & required "name" text
    & required "relationship" (one_of text null)
    & required "contactSummary" (one_of text null)
    & required "notes" (one_of text null)
    & required "archivedAt" (one_of text null)
    & required "createdAt" text
    & required "updatedAt" text
    & nil)

abbrev pub estate_directive : Shape
estate_directive = object (
    required "id" text
    & required "estatePlanId" text
    & required "accountId" text
    & required "accountName" text
    & required "currency" text
    & required "currentValueMinor" minor_units
    & required "isLiability" boolean
    & required "accountArchivedAt" (one_of text null)
    & required "isIncluded" boolean
    & required "ownershipShareBps" number
    & required "transferContext" (
        one_of (constant "estate") (
          one_of (constant "joint_survivorship") (
            one_of (constant "provider_designation")
              (one_of (constant "trust_entity") (constant "unknown")))))
    & required "distributionMethod" (
        one_of (constant "transfer_asset") (
          one_of (constant "sell_and_divide")
            (one_of (constant "cash_equivalent") (constant "undecided"))))
    & required "documentReference" (one_of text null)
    & required "notes" (one_of text null)
    & required "reviewedAt" (one_of text null)
    & required "createdAt" text
    & required "updatedAt" text
    & nil)

abbrev pub estate_allocation : Shape
estate_allocation = object (
    required "id" text
    & required "estatePlanId" text
    & required "directiveId" text
    & required "beneficiaryId" text
    & required "tier" (one_of (constant "primary") (constant "contingent"))
    & required "allocationBps" number
    & required "notes" (one_of text null)
    & required "createdAt" text
    & required "updatedAt" text
    & nil)

abbrev pub residuary_allocation : Shape
residuary_allocation = object (
    required "id" text
    & required "estatePlanId" text
    & required "beneficiaryId" text
    & required "tier" (one_of (constant "primary") (constant "contingent"))
    & required "allocationBps" number
    & required "notes" (one_of text null)
    & required "createdAt" text
    & required "updatedAt" text
    & nil)

abbrev pub estate_snapshot_meta : Shape
estate_snapshot_meta = object (
    required "id" text
    & required "estatePlanId" text
    & required "version" number
    & required "title" text
    & required "valueAsOfDate" text
    & required "baseCurrency" text
    & required "contentHash" text
    & required "generatedAt" text
    & nil)

abbrev pub estate_snapshot : Shape
estate_snapshot = object (
    required "id" text
    & required "estatePlanId" text
    & required "version" number
    & required "title" text
    & required "valueAsOfDate" text
    & required "baseCurrency" text
    & required "contentHash" text
    & required "generatedAt" text
    & required "content" unknown
    & nil)

abbrev pub estate_workspace : Shape
estate_workspace = object (
    required "plan" (one_of estate_plan null)
    & required "beneficiaries" (list_of beneficiary)
    & required "directives" (list_of estate_directive)
    & required "allocations" (list_of estate_allocation)
    & required "residuaryAllocations" (list_of residuary_allocation)
    & required "snapshots" (list_of estate_snapshot_meta)
    & required "currentValuesComplete" boolean
    & required "currentValuesWarning" text
    & nil)

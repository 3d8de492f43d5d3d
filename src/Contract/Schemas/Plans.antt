-- ===== src/Contract/Schemas/Plans.antt =====
-- web/src/api/schema.ts: the schemas for goals.
use wealthboard.Contract.{
  Shape, text, number, boolean, null, constant, list_of, one_of, object, required, optional, nil,
  ◌&◌,
}
use wealthboard.Contract.Schemas.Values.{decimal_string, minor_units}

abbrev pub goal_linked_account : Shape
goal_linked_account =
    object (required "id" text & required "name" text & required "currency" text & nil)

abbrev pub goal_plan : Shape
goal_plan = object (
    required "plannedContributionMinor" minor_units
    & required "frequency" text
    & required "startDate" text
    & required "endDate" (one_of text null)
    & nil)

abbrev pub goal_projection_point : Shape
goal_projection_point = object (
    required "date" text
    & required "projectedMinor" minor_units
    & required "contributionsMinor" minor_units
    & required "targetMinor" minor_units
    & nil)

abbrev pub goal_scenario : Shape
goal_scenario = object (
    required "monthlyContributionMinor" minor_units
    & required "annualReturnBps" number
    & required "projectedAtTargetMinor" minor_units
    & required "projectedProgressPercent" decimal_string
    & required "newContributionsMinor" minor_units
    & required "estimatedGrowthMinor" minor_units
    & required "estimatedCompletion" (one_of text null)
    & required "reachesTarget" boolean
    & nil)

abbrev pub goal_scenarios : Shape
goal_scenarios = object (
    required "savedPlan" goal_scenario
    & required "requiredPace" goal_scenario
    & required "lowerReturn" goal_scenario
    & nil)

abbrev pub goal : Shape
goal = object (
    required "id" text
    & required "name" text
    & required "description" (one_of text null)
    & required "targetAmountMinor" minor_units
    & required "currentAmountMinor" minor_units
    & required "currentAmountCurrency" text
    & required "currency" text
    & required "targetDate" text
    & required "linkedAccount" (one_of goal_linked_account null)
    & required "icon" text
    & required "status" text
    & required "priority" number
    & required "assumedAnnualReturnBps" number
    & required "progressPercent" decimal_string
    & required "trackingStatus"
        (one_of (constant "on_track") (one_of (constant "behind") (constant "incomplete")))
    & required "valueIncomplete" boolean
    & required "missingCurrencies" (list_of text)
    & required "plan" (one_of goal_plan null)
    & required "projection" (list_of goal_projection_point)
    & optional "scenarios" (one_of goal_scenarios null)
    & nil)

abbrev pub goal_milestone : Shape
goal_milestone = object (
    required "id" text
    & required "goalId" text
    & required "name" text
    & required "targetAmountMinor" minor_units
    & required "targetDate" (one_of text null)
    & required "status" text
    & required "progressPercent" decimal_string
    & required "remainingMinor" (one_of minor_units null)
    & nil)

abbrev pub goal_alert : Shape
goal_alert = object (
    required "goalId" text
    & required "goalName" text
    & required "currency" text
    & required "targetAmountMinor" minor_units
    & required "currentAmountMinor" minor_units
    & required "progressPercent" decimal_string
    & required "targetDate" text
    & required "alertKey" text
    & required "assumedAnnualReturnBps" number
    & nil)

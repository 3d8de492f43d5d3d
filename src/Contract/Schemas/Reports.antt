-- ===== src/Contract/Schemas/Reports.antt =====
-- web/src/api/schema.ts: the schemas for the dashboard, the reports and account analytics.
use wealthboard.Contract.{
  Shape, text, number, boolean, null, constant, list_of, one_of, object, required, nil, ◌&◌,
}
use wealthboard.Contract.Schemas.Values.{decimal_string, minor_units}

abbrev pub current_totals : Shape
current_totals = object (
    required "assets" minor_units
    & required "liabilities" minor_units
    & required "netWorth" minor_units
    & required "liquid" minor_units
    & required "investible" minor_units
    & required "contributions" minor_units
    & required "withdrawals" minor_units
    & required "income" minor_units
    & required "fees" minor_units
    & required "capitalGrowth" minor_units
    & nil)

abbrev pub historical_point : Shape
historical_point = object (
    required "date" text
    & required "assetsMinor" minor_units
    & required "liabilitiesMinor" minor_units
    & required "netWorthMinor" minor_units
    & required "liquidMinor" minor_units
    & required "investibleMinor" minor_units
    & required "complete" boolean
    & required "missingCurrencies" (list_of text)
    & nil)

abbrev pub dashboard_period_changes : Shape
dashboard_period_changes = object (
    required "oneMonth" (one_of minor_units null)
    & required "threeMonths" (one_of minor_units null)
    & required "oneYear" (one_of minor_units null)
    & required "allTime" (one_of minor_units null)
    & nil)

abbrev pub allocation_item : Shape
allocation_item = object (
    required "name" text
    & required "valueMinor" minor_units
    & required "sharePercent" decimal_string
    & nil)

abbrev pub dashboard : Shape
dashboard = object (
    required "asOf" text
    & required "baseCurrency" text
    & required "totals" current_totals
    & required "accountCount" number
    & required "goalCount" number
    & required "currentComplete" boolean
    & required "missingCurrencies" (list_of text)
    & required "historicalAvailable" boolean
    & required "historicalComplete" boolean
    & required "periodChanges" dashboard_period_changes
    & required "valueBasis" text
    & required "history" (list_of historical_point)
    & required "allocation" (list_of allocation_item)
    & required "investibleAllocation" (list_of allocation_item)
    & required "institutionAllocation" (list_of allocation_item)
    & required "currencyAllocation" (list_of allocation_item)
    & required "instrumentAllocation" (list_of allocation_item)
    & required "compositionComplete" boolean
    & required "completenessReasons" (list_of text)
    & nil)

abbrev pub report_summary : Shape
report_summary = object (
    required "asOf" text
    & required "baseCurrency" text
    & required "totals" current_totals
    & required "accountCount" number
    & required "goalCount" number
    & required "currentComplete" boolean
    & required "missingCurrencies" (list_of text)
    & required "valueBasis" text
    & required "history" (list_of historical_point)
    & required "historicalComplete" boolean
    & required "compositionComplete" boolean
    & required "completenessReasons" (list_of text)
    & nil)

abbrev pub report_allocation : Shape
report_allocation = object (
    required "asOf" text
    & required "baseCurrency" text
    & required "currentComplete" boolean
    & required "missingCurrencies" (list_of text)
    & required "valueBasis" text
    & required "categories" (list_of allocation_item)
    & required "institutions" (list_of allocation_item)
    & required "currencies" (list_of allocation_item)
    & required "investibleCategories" (list_of allocation_item)
    & required "instruments" (list_of allocation_item)
    & nil)

abbrev pub account_history_point : Shape
account_history_point =
    object
      (required "date" text & required "valueMinor" minor_units & required "complete" boolean & nil)

abbrev pub account_flow_metrics : Shape
account_flow_metrics = object (
    required "contributionsMinor" minor_units
    & required "withdrawalsMinor" minor_units
    & required "incomeMinor" minor_units
    & required "feesMinor" minor_units
    & required "capitalGrowthMinor" minor_units
    & required "estimatedGainMinor" minor_units
    & nil)

abbrev pub account_position : Shape
account_position = object (
    required "instrumentId" text
    & required "instrumentName" text
    & required "instrumentSymbol" text
    & required "quoteCurrency" text
    & required "instrumentArchived" boolean
    & required "quantity" decimal_string
    & required "unitPrice" (one_of decimal_string null)
    & required "priceDate" (one_of text null)
    & required "priceSource" text
    & required "valueMinor" (one_of minor_units null)
    & required "complete" boolean
    & required "stale" boolean
    & nil)

abbrev pub account_position_summary : Shape
account_position_summary = object (
    required "cashMinor" minor_units
    & required "positionsMinor" minor_units
    & required "complete" boolean
    & required "positions" (list_of account_position)
    & nil)

abbrev pub position_movement_attribution : Shape
position_movement_attribution = object (
    required "from" text
    & required "to" text
    & required "startValueMinor" minor_units
    & required "endValueMinor" minor_units
    & required "changeMinor" minor_units
    & required "externalCashMinor" minor_units
    & required "incomeMinor" minor_units
    & required "feesMinor" minor_units
    & required "cashAdjustmentsMinor" minor_units
    & required "internalTradeCashMinor" minor_units
    & required "quantityMovementMinor" minor_units
    & required "priceMovementMinor" minor_units
    & required "currencyMovementMinor" minor_units
    & required "unattributedMinor" minor_units
    & required "complete" boolean
    & required "methodology" (constant "position_bridge_v1")
    & required "returnStatus" (constant "unavailable")
    & required "returnMessage" text
    & nil)

abbrev pub account_analytics : Shape
account_analytics = object (
    required "accountId" text
    & required "currency" text
    & required "metrics" account_flow_metrics
    & required "positionSummary" (one_of account_position_summary null)
    & required "history" (list_of account_history_point)
    & required "historyComplete" boolean
    & required "movementAttributionAvailable" boolean
    & required "movementAttribution" (one_of position_movement_attribution null)
    & required "completenessReasons" (list_of text)
    & nil)

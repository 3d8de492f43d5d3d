-- ===== src/Contract/Schemas/Insights.antt =====
-- web/src/api/schema.ts: the schemas for account summaries, attention, flows, income and comparisons.
use wealthboard.Contract.{
  Shape, text, number, boolean, null, constant, list_of, one_of, object, required, optional, nil,
  ◌&◌,
}
use wealthboard.Contract.Schemas.Reports.{account_history_point}
use wealthboard.Contract.Schemas.Values.{decimal_string, minor_units}

abbrev pub freshness_status : Shape
freshness_status =
    one_of (constant "fresh")
      (one_of (constant "stale") (one_of (constant "missing") (constant "not_applicable")))

abbrev pub goal_reference : Shape
goal_reference = object (required "id" text & required "name" text & nil)

abbrev pub account_summary : Shape
account_summary = object (
    required "accountId" text
    & required "sparkline" (list_of account_history_point)
    & required "positionCount" (one_of number null)
    & required "lastUpdatedAt" text
    & required "asOfDate" text
    & required "freshness" freshness_status
    & required "valueComplete" boolean
    & required "missingPrices"
        (list_of (object (required "instrumentId" text & required "name" text & nil)))
    & required "missingCurrencies" (list_of text)
    & required "linkedGoals" (list_of goal_reference)
    & nil)

abbrev pub date_range : Shape
date_range = object (required "from" text & required "to" text & nil)

abbrev pub attention_item : Shape
attention_item = object (
    required "id" text
    & required "kind" (
        one_of (constant "missing_rate") (
          one_of (constant "stale_rate") (
            one_of (constant "missing_price")
              (one_of (constant "stale_price") (constant "goal_behind")))))
    & required "severity" (one_of (constant "warning") (constant "info"))
    & required "title" text
    & required "detail" text
    & optional "pair" (object (required "base" text & required "quote" text & nil))
    & optional "instrumentId" text
    & optional "goalId" text
    & required "accountIds" (list_of text)
    & optional "since" text
    & optional "until" text
    & required "fix" (object (required "label" text & required "href" text & nil))
    & nil)

abbrev pub attention_summary : Shape
attention_summary =
    object (required "totalsComplete" boolean & required "items" (list_of attention_item) & nil)

abbrev pub monthly_flow_point : Shape
monthly_flow_point = object (
    required "month" text
    & required "contributionsMinor" minor_units
    & required "withdrawalsMinor" minor_units
    & required "incomeMinor" minor_units
    & required "feesMinor" minor_units
    & required "growthMinor" minor_units
    & required "netChangeMinor" minor_units
    & required "complete" boolean
    & nil)

abbrev pub flows_report : Shape
flows_report = object (
    required "baseCurrency" text
    & required "range" (
        one_of (constant "1m") (
          one_of (constant "3m")
            (one_of (constant "6m") (one_of (constant "1y") (constant "all")))))
    & required "from" text
    & required "to" text
    & required "startValueMinor" minor_units
    & required "endValueMinor" minor_units
    & required "contributionsMinor" minor_units
    & required "incomeMinor" minor_units
    & required "growthMinor" minor_units
    & required "withdrawalsMinor" minor_units
    & required "feesMinor" minor_units
    & required "complete" boolean
    & required "months" (list_of monthly_flow_point)
    & nil)

abbrev pub income_account_line : Shape
income_account_line = object (
    required "accountId" text
    & required "name" text
    & required "currency" text
    & required "nativeMinor" minor_units
    & required "baseMinor" (one_of minor_units null)
    & nil)

abbrev pub income_report : Shape
income_report = object (
    required "baseCurrency" text
    & required "from" text
    & required "to" text
    & required "complete" boolean
    & required "totals" (
        object (
          required "interestMinor" minor_units
          & required "dividendsMinor" minor_units
          & required "capitalGrowthMinor" minor_units
          & required "feesMinor" minor_units
          & required "contributionsMinor" minor_units
          & nil))
    & required "interestByAccount" (list_of income_account_line)
    & required "dividends" (
        list_of (
          object (
            required "accountId" text
            & required "accountName" text
            & required "instrumentId" (one_of text null)
            & required "name" text
            & required "currency" text
            & required "nativeMinor" minor_units
            & required "baseMinor" (one_of minor_units null)
            & nil)))
    & required "feesByAccount" (list_of income_account_line)
    & required "months" (list_of monthly_flow_point)
    & nil)

abbrev pub net_worth_stats : Shape
net_worth_stats = object (
    required "baseCurrency" text
    & required "complete" boolean
    & required "months" (
        list_of (
          object (
            required "month" text
            & required "netWorthMinor" minor_units
            & required "assetsMinor" minor_units
            & required "liabilitiesMinor" minor_units
            & required "changeMinor" (one_of minor_units null)
            & required "complete" boolean
            & nil)))
    & required "yearOverYear" (
        object (
          required "fromDate" text
          & required "toDate" text
          & required "changeMinor" (one_of minor_units null)
          & required "changePercent" (one_of decimal_string null)
          & nil))
    & required "highest"
        (object (required "date" text & required "netWorthMinor" minor_units & nil))
    & required "sinceStart" (
        object (
          required "startDate" text
          & required "startMinor" minor_units
          & required "changeMinor" minor_units
          & required "changePercent" (one_of decimal_string null)
          & nil))
    & nil)

abbrev pub account_comparison_row : Shape
account_comparison_row = object (
    required "accountId" text
    & required "name" text
    & required "currency" text
    & required "trackingMode" (one_of (constant "balance") (constant "positions"))
    & required "isLiability" boolean
    & required "periodDays" number
    & required "startMinor" (one_of minor_units null)
    & required "endMinor" (one_of minor_units null)
    & required "depositsMinor" minor_units
    & required "withdrawalsMinor" minor_units
    & required "netIncomeMinor" minor_units
    & required "annualizedReturnBps" (one_of number null)
    & required "returnStatus" (
        one_of (constant "ok") (
          one_of (constant "short_period") (
            one_of (constant "methodology_unavailable")
              (one_of (constant "incomplete") (constant "not_applicable")))))
    & nil)

abbrev pub account_comparison : Shape
account_comparison = object (
    required "from" text
    & required "to" text
    & required "rows" (list_of account_comparison_row)
    & nil)

abbrev pub account_extras : Shape
account_extras = object (
    required "accountId" text
    & required "weights" (
        list_of (
          object (
            required "instrumentId" text
            & required "name" text
            & required "symbol" text
            & required "weightPercent" (one_of decimal_string null)
            & nil)))
    & required "cashWeightPercent" (one_of decimal_string null)
    & required "priceHistory" (
        list_of (
          object (
            required "instrumentId" text
            & required "name" text
            & required "symbol" text
            & required "currency" text
            & required "staleThresholdDays" number
            & required "points"
                (list_of (object (required "date" text & required "price" decimal_string & nil)))
            & required "staleRanges" (list_of date_range)
            & nil)))
    & required "linkedGoals" (list_of goal_reference)
    & nil)

abbrev pub instrument_holdings : Shape
instrument_holdings = object (
    required "instrumentId" text
    & required "staleThresholdDays" number
    & required "staleRanges" (list_of date_range)
    & required "holdings" (
        list_of (
          object (
            required "accountId" text
            & required "accountName" text
            & required "quantity" decimal_string
            & required "valueMinor" (one_of minor_units null)
            & required "currency" text
            & nil)))
    & nil)

-- ===== src/Contract/Operations/Reports.antt =====
-- web/src/api/schema.ts: the operations on the dashboard and the reports.
use wealthboard.Base.{[], ◌∷◌}
use wealthboard.Contract.{Operation, constant, list_of, one_of, required, optional, nil, ◌&◌}
use wealthboard.Contract.Schemas.Insights.{
  account_comparison, account_extras, account_summary, attention_summary, flows_report,
  income_report, instrument_holdings, net_worth_stats,
}
use wealthboard.Contract.Schemas.Ledger.{activity_page}
use wealthboard.Contract.Schemas.Reports.{
  account_analytics, dashboard, report_allocation, report_summary,
}
use wealthboard.Contract.Shared.{
  account_id, account_id_filter, activity_kind_filter, activity_search, activity_type_filter,
  from_date, limit, offset, problem_answer, report_range, resource_id, to_date,
}

abbrev pub get_dashboard : Operation
get_dashboard = record {
  name = "getDashboard";
  query =
      (optional "range" (
          one_of (constant "1m") (
            one_of (constant "3m")
              (one_of (constant "6m") (one_of (constant "1y") (constant "all")))))
        & nil);
  header = nil;
  path = nil;
  body = nil;
  answers =
      (record {
        status = 200;
        headers = nil;
        content = (required "application/json" dashboard & nil);
      })
      ∷ problem_answer 401
      ∷ problem_answer 403
      ∷ [];
}

abbrev pub get_account_analytics : Operation
get_account_analytics = record {
  name = "getAccountAnalytics";
  query = nil;
  header = nil;
  path = (required "accountID" account_id & nil);
  body = nil;
  answers =
      (record {
        status = 200;
        headers = nil;
        content = (required "application/json" account_analytics & nil);
      })
      ∷ problem_answer 401
      ∷ problem_answer 403
      ∷ problem_answer 404
      ∷ [];
}

abbrev pub get_report_summary : Operation
get_report_summary = record {
  name = "getReportSummary";
  query = nil;
  header = nil;
  path = nil;
  body = nil;
  answers =
      (record {
        status = 200;
        headers = nil;
        content = (required "application/json" report_summary & nil);
      })
      ∷ problem_answer 401
      ∷ problem_answer 403
      ∷ [];
}

abbrev pub get_report_allocation : Operation
get_report_allocation = record {
  name = "getReportAllocation";
  query = nil;
  header = nil;
  path = nil;
  body = nil;
  answers =
      (record {
        status = 200;
        headers = nil;
        content = (required "application/json" report_allocation & nil);
      })
      ∷ problem_answer 401
      ∷ problem_answer 403
      ∷ [];
}

abbrev pub list_account_summaries : Operation
list_account_summaries = record {
  name = "listAccountSummaries";
  query = nil;
  header = nil;
  path = nil;
  body = nil;
  answers =
      (record {
        status = 200;
        headers = nil;
        content = (required "application/json" (list_of account_summary) & nil);
      })
      ∷ problem_answer 401
      ∷ problem_answer 403
      ∷ problem_answer 503
      ∷ [];
}

abbrev pub get_account_extras : Operation
get_account_extras = record {
  name = "getAccountExtras";
  query = nil;
  header = nil;
  path = (required "accountID" account_id & nil);
  body = nil;
  answers =
      (record {
        status = 200;
        headers = nil;
        content = (required "application/json" account_extras & nil);
      })
      ∷ problem_answer 401
      ∷ problem_answer 403
      ∷ problem_answer 404
      ∷ problem_answer 503
      ∷ [];
}

abbrev pub list_activity : Operation
list_activity = record {
  name = "listActivity";
  query =
      (optional "kind" activity_kind_filter
        & optional "accountId" account_id_filter
        & optional "type" activity_type_filter
        & optional "from" from_date
        & optional "to" to_date
        & optional "q" activity_search
        & optional "limit" limit
        & optional "offset" offset
        & nil);
  header = nil;
  path = nil;
  body = nil;
  answers =
      (record {
        status = 200;
        headers = nil;
        content = (required "application/json" activity_page & nil);
      })
      ∷ problem_answer 400
      ∷ problem_answer 401
      ∷ problem_answer 403
      ∷ problem_answer 404
      ∷ problem_answer 503
      ∷ [];
}

abbrev pub get_attention : Operation
get_attention = record {
  name = "getAttention";
  query = nil;
  header = nil;
  path = nil;
  body = nil;
  answers =
      (record {
        status = 200;
        headers = nil;
        content = (required "application/json" attention_summary & nil);
      })
      ∷ problem_answer 401
      ∷ problem_answer 403
      ∷ problem_answer 503
      ∷ [];
}

abbrev pub get_flows_report : Operation
get_flows_report = record {
  name = "getFlowsReport";
  query = (optional "range" report_range & nil);
  header = nil;
  path = nil;
  body = nil;
  answers =
      (record {
        status = 200;
        headers = nil;
        content = (required "application/json" flows_report & nil);
      })
      ∷ problem_answer 401
      ∷ problem_answer 403
      ∷ problem_answer 422
      ∷ problem_answer 503
      ∷ [];
}

abbrev pub get_income_report : Operation
get_income_report = record {
  name = "getIncomeReport";
  query = (optional "range" report_range & nil);
  header = nil;
  path = nil;
  body = nil;
  answers =
      (record {
        status = 200;
        headers = nil;
        content = (required "application/json" income_report & nil);
      })
      ∷ problem_answer 401
      ∷ problem_answer 403
      ∷ problem_answer 422
      ∷ problem_answer 503
      ∷ [];
}

abbrev pub get_net_worth_stats : Operation
get_net_worth_stats = record {
  name = "getNetWorthStats";
  query = nil;
  header = nil;
  path = nil;
  body = nil;
  answers =
      (record {
        status = 200;
        headers = nil;
        content = (required "application/json" net_worth_stats & nil);
      })
      ∷ problem_answer 401
      ∷ problem_answer 403
      ∷ problem_answer 503
      ∷ [];
}

abbrev pub get_account_comparison : Operation
get_account_comparison = record {
  name = "getAccountComparison";
  query = (optional "range" report_range & nil);
  header = nil;
  path = nil;
  body = nil;
  answers =
      (record {
        status = 200;
        headers = nil;
        content = (required "application/json" account_comparison & nil);
      })
      ∷ problem_answer 401
      ∷ problem_answer 403
      ∷ problem_answer 422
      ∷ problem_answer 503
      ∷ [];
}

abbrev pub get_instrument_holdings : Operation
get_instrument_holdings = record {
  name = "getInstrumentHoldings";
  query = nil;
  header = nil;
  path = (required "id" resource_id & nil);
  body = nil;
  answers =
      (record {
        status = 200;
        headers = nil;
        content = (required "application/json" instrument_holdings & nil);
      })
      ∷ problem_answer 401
      ∷ problem_answer 403
      ∷ problem_answer 404
      ∷ problem_answer 503
      ∷ [];
}

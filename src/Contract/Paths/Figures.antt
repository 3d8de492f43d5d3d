-- ===== src/Contract/Paths/Figures.antt =====
-- web/src/api/schema.ts: the paths of reports, instruments, trades and corporate actions.
use wealthboard.Base.{List, [], ◌∷◌}
use wealthboard.Contract.{PathItem, get, put, post, delete, patch}
use wealthboard.Contract.Operations.Actions.{
  delete_corporate_action_group, record_dividend_reinvestment, record_in_kind_transfer,
  record_merger, record_spinoff, record_stock_split,
}
use wealthboard.Contract.Operations.Instruments.{
  create_instrument, delete_instrument, delete_security_price, get_instrument, get_settings,
  list_instruments, set_instrument_archived, update_instrument, update_settings,
  upsert_security_price,
}
use wealthboard.Contract.Operations.Positions.{
  create_position_event, create_position_reconciliation, delete_position_event,
  delete_position_reconciliation, execute_account_conversion, preview_account_conversion,
  update_position_event,
}
use wealthboard.Contract.Operations.Reports.{
  get_account_analytics, get_account_comparison, get_account_extras, get_attention, get_dashboard,
  get_flows_report, get_income_report, get_instrument_holdings, get_net_worth_stats,
  get_report_allocation, get_report_summary, list_account_summaries, list_activity,
}

abbrev pub dashboard_paths : List PathItem
dashboard_paths =
    record { template = "/dashboard"; operations = (get, get_dashboard) ∷ [] }
    ∷ record {
      template = "/accounts/{accountID}/analytics";
      operations = (get, get_account_analytics) ∷ [];
    }
    ∷ record { template = "/reports/summary"; operations = (get, get_report_summary) ∷ [] }
    ∷ record { template = "/reports/allocation"; operations = (get, get_report_allocation) ∷ [] }
    ∷ []

abbrev pub other_accounts_paths : List PathItem
other_accounts_paths =
    record { template = "/accounts/summaries"; operations = (get, list_account_summaries) ∷ [] }
    ∷ record {
      template = "/accounts/{accountID}/extras";
      operations = (get, get_account_extras) ∷ [];
    }
    ∷ record { template = "/activity"; operations = (get, list_activity) ∷ [] }
    ∷ record { template = "/attention"; operations = (get, get_attention) ∷ [] }
    ∷ []

abbrev pub reports_paths : List PathItem
reports_paths =
    record { template = "/reports/flows"; operations = (get, get_flows_report) ∷ [] }
    ∷ record { template = "/reports/income"; operations = (get, get_income_report) ∷ [] }
    ∷ record { template = "/reports/net-worth-stats"; operations = (get, get_net_worth_stats) ∷ [] }
    ∷ record {
      template = "/reports/account-comparison";
      operations = (get, get_account_comparison) ∷ [];
    }
    ∷ []

abbrev pub instruments_paths : List PathItem
instruments_paths =
    record {
      template = "/instruments/{id}/holdings";
      operations = (get, get_instrument_holdings) ∷ [];
    }
    ∷ record {
      template = "/settings";
      operations = (get, get_settings) ∷ (put, update_settings) ∷ [];
    }
    ∷ record {
      template = "/instruments";
      operations = (get, list_instruments) ∷ (post, create_instrument) ∷ [];
    }
    ∷ record {
      template = "/instruments/{id}";
      operations =
          (get, get_instrument) ∷ (put, update_instrument) ∷ (delete, delete_instrument) ∷ [];
    }
    ∷ record {
      template = "/instruments/{id}/archive";
      operations = (patch, set_instrument_archived) ∷ [];
    }
    ∷ []

abbrev pub security_prices_paths : List PathItem
security_prices_paths =
    record { template = "/security-prices"; operations = (put, upsert_security_price) ∷ [] }
    ∷ record {
      template = "/security-prices/{id}";
      operations = (delete, delete_security_price) ∷ [];
    }
    ∷ record { template = "/position-events"; operations = (post, create_position_event) ∷ [] }
    ∷ record {
      template = "/position-events/{id}";
      operations = (put, update_position_event) ∷ (delete, delete_position_event) ∷ [];
    }
    ∷ []

abbrev pub position_reconciliations_paths : List PathItem
position_reconciliations_paths =
    record {
      template = "/position-reconciliations";
      operations = (post, create_position_reconciliation) ∷ [];
    }
    ∷ record {
      template = "/position-reconciliations/{id}";
      operations = (delete, delete_position_reconciliation) ∷ [];
    }
    ∷ record {
      template = "/account-conversions/preview";
      operations = (post, preview_account_conversion) ∷ [];
    }
    ∷ record {
      template = "/account-conversions";
      operations = (post, execute_account_conversion) ∷ [];
    }
    ∷ []

abbrev pub corporate_actions_paths : List PathItem
corporate_actions_paths =
    record {
      template = "/corporate-actions/stock-splits";
      operations = (post, record_stock_split) ∷ [];
    }
    ∷ record { template = "/corporate-actions/spinoffs"; operations = (post, record_spinoff) ∷ [] }
    ∷ record { template = "/corporate-actions/mergers"; operations = (post, record_merger) ∷ [] }
    ∷ record {
      template = "/corporate-actions/dividend-reinvestments";
      operations = (post, record_dividend_reinvestment) ∷ [];
    }
    ∷ record {
      template = "/corporate-actions/in-kind-transfers";
      operations = (post, record_in_kind_transfer) ∷ [];
    }
    ∷ record {
      template = "/corporate-actions/{id}";
      operations = (delete, delete_corporate_action_group) ∷ [];
    }
    ∷ []

-- ===== src/Contract/Paths/Books.antt =====
-- web/src/api/schema.ts: the paths of the catalogue, accounts, the ledger and goals.
use wealthboard.Base.{List, [], ◌∷◌}
use wealthboard.Contract.{PathItem, get, put, post, delete, patch}
use wealthboard.Contract.Operations.Accounts.{
  create_account, delete_account, get_account, get_account_position_event, list_account_activity,
  list_account_position_events, list_account_position_reconciliations, list_account_transactions,
  list_account_valuations, list_accounts, set_account_archived, update_account,
}
use wealthboard.Contract.Operations.Catalogue.{
  create_category, create_exchange_rate, create_institution, delete_exchange_rate, get_auth_config,
  get_overview, list_categories, list_institutions, reorder_category, set_category_archived,
  set_institution_archived, update_category, update_institution,
}
use wealthboard.Contract.Operations.Ledger.{
  create_transaction, create_transfer, create_valuation, delete_transaction, delete_valuation,
  list_transactions, update_transaction,
}
use wealthboard.Contract.Operations.Plans.{
  calculate_goal_scenarios, create_goal, create_goal_milestone, delete_goal, delete_goal_milestone,
  dismiss_goal_alert, get_goal, list_goal_alerts, list_goal_milestones, list_goals, set_goal_status,
  update_goal,
}

abbrev pub auth_paths : List PathItem
auth_paths =
    record { template = "/auth/config"; operations = (get, get_auth_config) ∷ [] }
    ∷ record { template = "/overview"; operations = (get, get_overview) ∷ [] }
    ∷ record {
      template = "/categories";
      operations = (get, list_categories) ∷ (post, create_category) ∷ [];
    }
    ∷ record { template = "/categories/{id}"; operations = (put, update_category) ∷ [] }
    ∷ []

abbrev pub categories_paths : List PathItem
categories_paths =
    record {
      template = "/categories/{id}/archive";
      operations = (patch, set_category_archived) ∷ [];
    }
    ∷ record { template = "/categories/{id}/reorder"; operations = (post, reorder_category) ∷ [] }
    ∷ record {
      template = "/institutions";
      operations = (get, list_institutions) ∷ (post, create_institution) ∷ [];
    }
    ∷ record { template = "/institutions/{id}"; operations = (put, update_institution) ∷ [] }
    ∷ []

abbrev pub institutions_paths : List PathItem
institutions_paths =
    record {
      template = "/institutions/{id}/archive";
      operations = (patch, set_institution_archived) ∷ [];
    }
    ∷ record { template = "/exchange-rates"; operations = (post, create_exchange_rate) ∷ [] }
    ∷ record { template = "/exchange-rates/{id}"; operations = (delete, delete_exchange_rate) ∷ [] }
    ∷ record {
      template = "/accounts";
      operations = (get, list_accounts) ∷ (post, create_account) ∷ [];
    }
    ∷ []

abbrev pub accounts_paths : List PathItem
accounts_paths =
    record {
      template = "/accounts/{accountID}";
      operations = (get, get_account) ∷ (delete, delete_account) ∷ (patch, update_account) ∷ [];
    }
    ∷ record {
      template = "/accounts/{accountID}/archive";
      operations = (post, set_account_archived) ∷ [];
    }
    ∷ record {
      template = "/accounts/{accountID}/transactions";
      operations = (get, list_account_transactions) ∷ [];
    }
    ∷ record {
      template = "/accounts/{accountID}/valuations";
      operations = (get, list_account_valuations) ∷ [];
    }
    ∷ record {
      template = "/accounts/{accountID}/activity";
      operations = (get, list_account_activity) ∷ [];
    }
    ∷ record {
      template = "/accounts/{accountID}/position-events";
      operations = (get, list_account_position_events) ∷ [];
    }
    ∷ record {
      template = "/accounts/{accountID}/position-events/{id}";
      operations = (get, get_account_position_event) ∷ [];
    }
    ∷ []

abbrev pub further_accounts_paths : List PathItem
further_accounts_paths =
    record {
      template = "/accounts/{accountID}/position-reconciliations";
      operations = (get, list_account_position_reconciliations) ∷ [];
    }
    ∷ record {
      template = "/transactions";
      operations = (get, list_transactions) ∷ (post, create_transaction) ∷ [];
    }
    ∷ record {
      template = "/transactions/{id}";
      operations = (delete, delete_transaction) ∷ (patch, update_transaction) ∷ [];
    }
    ∷ record { template = "/valuations"; operations = (post, create_valuation) ∷ [] }
    ∷ []

abbrev pub valuations_paths : List PathItem
valuations_paths =
    record { template = "/valuations/{id}"; operations = (delete, delete_valuation) ∷ [] }
    ∷ record { template = "/transfers"; operations = (post, create_transfer) ∷ [] }
    ∷ record { template = "/goals"; operations = (get, list_goals) ∷ (post, create_goal) ∷ [] }
    ∷ record {
      template = "/goals/{id}";
      operations = (get, get_goal) ∷ (put, update_goal) ∷ (delete, delete_goal) ∷ [];
    }
    ∷ []

abbrev pub goals_paths : List PathItem
goals_paths =
    record { template = "/goals/{id}/scenarios"; operations = (get, calculate_goal_scenarios) ∷ [] }
    ∷ record { template = "/goals/{id}/status"; operations = (patch, set_goal_status) ∷ [] }
    ∷ record {
      template = "/goals/{id}/milestones";
      operations = (get, list_goal_milestones) ∷ (post, create_goal_milestone) ∷ [];
    }
    ∷ record {
      template = "/goals/{id}/milestones/{milestoneId}";
      operations = (delete, delete_goal_milestone) ∷ [];
    }
    ∷ record {
      template = "/goals/{id}/alerts/dismiss";
      operations = (post, dismiss_goal_alert) ∷ [];
    }
    ∷ record { template = "/goals/alerts"; operations = (get, list_goal_alerts) ∷ [] }
    ∷ []

-- ===== src/Contract/Operations/Accounts.antt =====
-- web/src/api/schema.ts: the operations on accounts and the pages of their records.
use wealthboard.Base.{[], ◌∷◌}
use wealthboard.Contract.{Operation, list_of, object, required, optional, nil, ◌&◌}
use wealthboard.Contract.Schemas.Ledger.{
  account, activity_page, position_event, position_event_page, position_reconciliation_page,
  transaction_page, valuation_page,
}
use wealthboard.Contract.Schemas.Requests.{
  account_create_request, account_delete_request, account_update_request,
  required_archive_mutation_request, resource_id_response,
}
use wealthboard.Contract.Shared.{
  account_id, archived_filter, from_date, limit, mutation_csrf_token, offset, problem_answer,
  resource_id, to_date, transaction_type_filter,
}

abbrev pub list_accounts : Operation
list_accounts = record {
  name = "listAccounts";
  query = (optional "archived" archived_filter & nil);
  header = nil;
  path = nil;
  body = nil;
  answers =
      (record {
        status = 200;
        headers = nil;
        content =
            (required "application/json" (object (required "items" (list_of account) & nil)) & nil);
      })
      ∷ problem_answer 400
      ∷ problem_answer 401
      ∷ problem_answer 403
      ∷ [];
}

abbrev pub create_account : Operation
create_account = record {
  name = "createAccount";
  query = nil;
  header = (optional "X-CSRF-Token" mutation_csrf_token & nil);
  path = nil;
  body = (required "application/json" account_create_request & nil);
  answers =
      (record {
        status = 201;
        headers = nil;
        content = (required "application/json" resource_id_response & nil);
      })
      ∷ problem_answer 400
      ∷ problem_answer 401
      ∷ problem_answer 403
      ∷ problem_answer 404
      ∷ problem_answer 409
      ∷ problem_answer 422
      ∷ problem_answer 503
      ∷ [];
}

abbrev pub get_account : Operation
get_account = record {
  name = "getAccount";
  query = nil;
  header = nil;
  path = (required "accountID" account_id & nil);
  body = nil;
  answers =
      (record {
        status = 200;
        headers = nil;
        content = (required "application/json" account & nil);
      })
      ∷ problem_answer 400
      ∷ problem_answer 401
      ∷ problem_answer 403
      ∷ problem_answer 404
      ∷ [];
}

abbrev pub delete_account : Operation
delete_account = record {
  name = "deleteAccount";
  query = nil;
  header = (optional "X-CSRF-Token" mutation_csrf_token & nil);
  path = (required "accountID" account_id & nil);
  body = (required "application/json" account_delete_request & nil);
  answers =
      (record { status = 204; headers = nil; content = nil })
      ∷ problem_answer 400
      ∷ problem_answer 401
      ∷ problem_answer 403
      ∷ problem_answer 404
      ∷ problem_answer 409
      ∷ problem_answer 422
      ∷ problem_answer 503
      ∷ [];
}

abbrev pub update_account : Operation
update_account = record {
  name = "updateAccount";
  query = nil;
  header = (optional "X-CSRF-Token" mutation_csrf_token & nil);
  path = (required "accountID" account_id & nil);
  body = (required "application/json" account_update_request & nil);
  answers =
      (record { status = 204; headers = nil; content = nil })
      ∷ problem_answer 400
      ∷ problem_answer 401
      ∷ problem_answer 403
      ∷ problem_answer 404
      ∷ problem_answer 409
      ∷ problem_answer 422
      ∷ problem_answer 503
      ∷ [];
}

abbrev pub set_account_archived : Operation
set_account_archived = record {
  name = "setAccountArchived";
  query = nil;
  header = (optional "X-CSRF-Token" mutation_csrf_token & nil);
  path = (required "accountID" account_id & nil);
  body = (required "application/json" required_archive_mutation_request & nil);
  answers =
      (record { status = 204; headers = nil; content = nil })
      ∷ problem_answer 400
      ∷ problem_answer 401
      ∷ problem_answer 403
      ∷ problem_answer 404
      ∷ problem_answer 409
      ∷ problem_answer 422
      ∷ problem_answer 503
      ∷ [];
}

abbrev pub list_account_transactions : Operation
list_account_transactions = record {
  name = "listAccountTransactions";
  query =
      (optional "type" transaction_type_filter
        & optional "from" from_date
        & optional "to" to_date
        & optional "limit" limit
        & optional "offset" offset
        & nil);
  header = nil;
  path = (required "accountID" account_id & nil);
  body = nil;
  answers =
      (record {
        status = 200;
        headers = nil;
        content = (required "application/json" transaction_page & nil);
      })
      ∷ problem_answer 400
      ∷ problem_answer 401
      ∷ problem_answer 403
      ∷ problem_answer 404
      ∷ [];
}

abbrev pub list_account_valuations : Operation
list_account_valuations = record {
  name = "listAccountValuations";
  query =
      (optional "from" from_date
        & optional "to" to_date
        & optional "limit" limit
        & optional "offset" offset
        & nil);
  header = nil;
  path = (required "accountID" account_id & nil);
  body = nil;
  answers =
      (record {
        status = 200;
        headers = nil;
        content = (required "application/json" valuation_page & nil);
      })
      ∷ problem_answer 400
      ∷ problem_answer 401
      ∷ problem_answer 403
      ∷ problem_answer 404
      ∷ [];
}

abbrev pub list_account_activity : Operation
list_account_activity = record {
  name = "listAccountActivity";
  query =
      (optional "from" from_date
        & optional "to" to_date
        & optional "limit" limit
        & optional "offset" offset
        & nil);
  header = nil;
  path = (required "accountID" account_id & nil);
  body = nil;
  answers =
      (record {
        status = 200;
        headers = nil;
        content = (required "application/json" activity_page & nil);
      })
      ∷ problem_answer 400
      ∷ problem_answer 401
      ∷ problem_answer 403
      ∷ problem_answer 404
      ∷ [];
}

abbrev pub list_account_position_events : Operation
list_account_position_events = record {
  name = "listAccountPositionEvents";
  query = (optional "limit" limit & optional "offset" offset & nil);
  header = nil;
  path = (required "accountID" account_id & nil);
  body = nil;
  answers =
      (record {
        status = 200;
        headers = nil;
        content = (required "application/json" position_event_page & nil);
      })
      ∷ problem_answer 400
      ∷ problem_answer 401
      ∷ problem_answer 403
      ∷ problem_answer 404
      ∷ problem_answer 503
      ∷ [];
}

abbrev pub get_account_position_event : Operation
get_account_position_event = record {
  name = "getAccountPositionEvent";
  query = nil;
  header = nil;
  path = (required "accountID" account_id & required "id" resource_id & nil);
  body = nil;
  answers =
      (record {
        status = 200;
        headers = nil;
        content = (required "application/json" position_event & nil);
      })
      ∷ problem_answer 400
      ∷ problem_answer 401
      ∷ problem_answer 403
      ∷ problem_answer 404
      ∷ problem_answer 503
      ∷ [];
}

abbrev pub list_account_position_reconciliations : Operation
list_account_position_reconciliations = record {
  name = "listAccountPositionReconciliations";
  query = (optional "limit" limit & optional "offset" offset & nil);
  header = nil;
  path = (required "accountID" account_id & nil);
  body = nil;
  answers =
      (record {
        status = 200;
        headers = nil;
        content = (required "application/json" position_reconciliation_page & nil);
      })
      ∷ problem_answer 400
      ∷ problem_answer 401
      ∷ problem_answer 403
      ∷ problem_answer 404
      ∷ problem_answer 503
      ∷ [];
}

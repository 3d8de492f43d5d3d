-- ===== src/Contract/Operations/Ledger.antt =====
-- web/src/api/schema.ts: the operations on transactions, valuations and transfers.
use wealthboard.Base.{[], ◌∷◌}
use wealthboard.Contract.{Operation, required, optional, nil, ◌&◌}
use wealthboard.Contract.Schemas.Ledger.{transaction_page}
use wealthboard.Contract.Schemas.Requests.{
  resource_id_response, transaction_create_request, transaction_update_request,
  transfer_create_request, valuation_create_request,
}
use wealthboard.Contract.Shared.{
  account_id_filter, from_date, limit, mutation_csrf_token, offset, problem_answer, resource_id,
  to_date, transaction_type_filter,
}

abbrev pub list_transactions : Operation
list_transactions = record {
  name = "listTransactions";
  query =
      (optional "accountId" account_id_filter
        & optional "type" transaction_type_filter
        & optional "from" from_date
        & optional "to" to_date
        & optional "limit" limit
        & optional "offset" offset
        & nil);
  header = nil;
  path = nil;
  body = nil;
  answers =
      (record {
        status = 200;
        headers = nil;
        content = (required "application/json" transaction_page & nil);
      })
      ∷ problem_answer 400
      ∷ problem_answer 401
      ∷ problem_answer 403
      ∷ problem_answer 404
      ∷ [];
}

abbrev pub create_transaction : Operation
create_transaction = record {
  name = "createTransaction";
  query = nil;
  header = (optional "X-CSRF-Token" mutation_csrf_token & nil);
  path = nil;
  body = (required "application/json" transaction_create_request & nil);
  answers =
      (record {
        status = 201;
        headers = nil;
        content = (required "application/json" resource_id_response & nil);
      })
      ∷ problem_answer 400
      ∷ problem_answer 401
      ∷ problem_answer 403
      ∷ problem_answer 404
      ∷ problem_answer 409
      ∷ problem_answer 422
      ∷ problem_answer 503
      ∷ [];
}

abbrev pub delete_transaction : Operation
delete_transaction = record {
  name = "deleteTransaction";
  query = nil;
  header = (optional "X-CSRF-Token" mutation_csrf_token & nil);
  path = (required "id" resource_id & nil);
  body = nil;
  answers =
      (record { status = 204; headers = nil; content = nil })
      ∷ problem_answer 401
      ∷ problem_answer 403
      ∷ problem_answer 404
      ∷ problem_answer 422
      ∷ problem_answer 503
      ∷ [];
}

abbrev pub update_transaction : Operation
update_transaction = record {
  name = "updateTransaction";
  query = nil;
  header = (optional "X-CSRF-Token" mutation_csrf_token & nil);
  path = (required "id" resource_id & nil);
  body = (required "application/json" transaction_update_request & nil);
  answers =
      (record { status = 204; headers = nil; content = nil })
      ∷ problem_answer 400
      ∷ problem_answer 401
      ∷ problem_answer 403
      ∷ problem_answer 404
      ∷ problem_answer 409
      ∷ problem_answer 422
      ∷ problem_answer 503
      ∷ [];
}

abbrev pub create_valuation : Operation
create_valuation = record {
  name = "createValuation";
  query = nil;
  header = (optional "X-CSRF-Token" mutation_csrf_token & nil);
  path = nil;
  body = (required "application/json" valuation_create_request & nil);
  answers =
      (record {
        status = 201;
        headers = nil;
        content = (required "application/json" resource_id_response & nil);
      })
      ∷ problem_answer 400
      ∷ problem_answer 401
      ∷ problem_answer 403
      ∷ problem_answer 404
      ∷ problem_answer 409
      ∷ problem_answer 422
      ∷ problem_answer 503
      ∷ [];
}

abbrev pub delete_valuation : Operation
delete_valuation = record {
  name = "deleteValuation";
  query = nil;
  header = (optional "X-CSRF-Token" mutation_csrf_token & nil);
  path = (required "id" resource_id & nil);
  body = nil;
  answers =
      (record { status = 204; headers = nil; content = nil })
      ∷ problem_answer 401
      ∷ problem_answer 403
      ∷ problem_answer 404
      ∷ problem_answer 422
      ∷ problem_answer 503
      ∷ [];
}

abbrev pub create_transfer : Operation
create_transfer = record {
  name = "createTransfer";
  query = nil;
  header = (optional "X-CSRF-Token" mutation_csrf_token & nil);
  path = nil;
  body = (required "application/json" transfer_create_request & nil);
  answers =
      (record {
        status = 201;
        headers = nil;
        content = (required "application/json" resource_id_response & nil);
      })
      ∷ problem_answer 400
      ∷ problem_answer 401
      ∷ problem_answer 403
      ∷ problem_answer 404
      ∷ problem_answer 409
      ∷ problem_answer 422
      ∷ problem_answer 503
      ∷ [];
}

-- ===== src/Contract/Operations/Actions.antt =====
-- web/src/api/schema.ts: the operations on corporate actions.
use wealthboard.Base.{[], ◌∷◌}
use wealthboard.Contract.{Operation, required, optional, nil, ◌&◌}
use wealthboard.Contract.Schemas.Actions.{
  dividend_reinvestment_request, in_kind_transfer_request, merger_request, spinoff_request,
  stock_split_request,
}
use wealthboard.Contract.Shared.{
  corporate_action_created, idempotency_key, mutation_csrf_token, problem_answer, resource_id,
}

abbrev pub record_stock_split : Operation
record_stock_split = record {
  name = "recordStockSplit";
  query = nil;
  header =
      (optional "X-CSRF-Token" mutation_csrf_token
        & optional "Idempotency-Key" idempotency_key
        & nil);
  path = nil;
  body = (required "application/json" stock_split_request & nil);
  answers =
      corporate_action_created 201
      ∷ problem_answer 400
      ∷ problem_answer 401
      ∷ problem_answer 403
      ∷ problem_answer 404
      ∷ problem_answer 409
      ∷ problem_answer 422
      ∷ problem_answer 503
      ∷ [];
}

abbrev pub record_spinoff : Operation
record_spinoff = record {
  name = "recordSpinoff";
  query = nil;
  header =
      (optional "X-CSRF-Token" mutation_csrf_token
        & optional "Idempotency-Key" idempotency_key
        & nil);
  path = nil;
  body = (required "application/json" spinoff_request & nil);
  answers =
      corporate_action_created 201
      ∷ problem_answer 400
      ∷ problem_answer 401
      ∷ problem_answer 403
      ∷ problem_answer 404
      ∷ problem_answer 409
      ∷ problem_answer 422
      ∷ problem_answer 503
      ∷ [];
}

abbrev pub record_merger : Operation
record_merger = record {
  name = "recordMerger";
  query = nil;
  header =
      (optional "X-CSRF-Token" mutation_csrf_token
        & optional "Idempotency-Key" idempotency_key
        & nil);
  path = nil;
  body = (required "application/json" merger_request & nil);
  answers =
      corporate_action_created 201
      ∷ problem_answer 400
      ∷ problem_answer 401
      ∷ problem_answer 403
      ∷ problem_answer 404
      ∷ problem_answer 409
      ∷ problem_answer 422
      ∷ problem_answer 503
      ∷ [];
}

abbrev pub record_dividend_reinvestment : Operation
record_dividend_reinvestment = record {
  name = "recordDividendReinvestment";
  query = nil;
  header =
      (optional "X-CSRF-Token" mutation_csrf_token
        & optional "Idempotency-Key" idempotency_key
        & nil);
  path = nil;
  body = (required "application/json" dividend_reinvestment_request & nil);
  answers =
      corporate_action_created 201
      ∷ problem_answer 400
      ∷ problem_answer 401
      ∷ problem_answer 403
      ∷ problem_answer 404
      ∷ problem_answer 409
      ∷ problem_answer 422
      ∷ problem_answer 503
      ∷ [];
}

abbrev pub record_in_kind_transfer : Operation
record_in_kind_transfer = record {
  name = "recordInKindTransfer";
  query = nil;
  header =
      (optional "X-CSRF-Token" mutation_csrf_token
        & optional "Idempotency-Key" idempotency_key
        & nil);
  path = nil;
  body = (required "application/json" in_kind_transfer_request & nil);
  answers =
      corporate_action_created 201
      ∷ problem_answer 400
      ∷ problem_answer 401
      ∷ problem_answer 403
      ∷ problem_answer 404
      ∷ problem_answer 409
      ∷ problem_answer 422
      ∷ problem_answer 503
      ∷ [];
}

abbrev pub delete_corporate_action_group : Operation
delete_corporate_action_group = record {
  name = "deleteCorporateActionGroup";
  query = nil;
  header = (optional "X-CSRF-Token" mutation_csrf_token & nil);
  path = (required "id" resource_id & nil);
  body = nil;
  answers =
      (record { status = 204; headers = nil; content = nil })
      ∷ problem_answer 401
      ∷ problem_answer 403
      ∷ problem_answer 404
      ∷ problem_answer 409
      ∷ problem_answer 422
      ∷ problem_answer 503
      ∷ [];
}

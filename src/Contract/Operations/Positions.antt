-- ===== src/Contract/Operations/Positions.antt =====
-- web/src/api/schema.ts: the operations on trades, reconciliations and conversions.
use wealthboard.Base.{[], ◌∷◌}
use wealthboard.Contract.{Operation, required, optional, nil, ◌&◌}
use wealthboard.Contract.Schemas.Conversions.{
  account_conversion_preview, account_conversion_request, account_conversion_result,
}
use wealthboard.Contract.Schemas.Requests.{
  position_event_create_request, position_event_update_request,
  position_reconciliation_create_request, resource_id_response,
}
use wealthboard.Contract.Shared.{idempotency_key, mutation_csrf_token, problem_answer, resource_id}

abbrev pub create_position_event : Operation
create_position_event = record {
  name = "createPositionEvent";
  query = nil;
  header = (optional "X-CSRF-Token" mutation_csrf_token & nil);
  path = nil;
  body = (required "application/json" position_event_create_request & nil);
  answers =
      (record {
        status = 201;
        headers = nil;
        content = (required "application/json" resource_id_response & nil);
      })
      ∷ problem_answer 400
      ∷ problem_answer 401
      ∷ problem_answer 403
      ∷ problem_answer 404
      ∷ problem_answer 409
      ∷ problem_answer 422
      ∷ problem_answer 503
      ∷ [];
}

abbrev pub update_position_event : Operation
update_position_event = record {
  name = "updatePositionEvent";
  query = nil;
  header = (optional "X-CSRF-Token" mutation_csrf_token & nil);
  path = (required "id" resource_id & nil);
  body = (required "application/json" position_event_update_request & nil);
  answers =
      (record {
        status = 200;
        headers = nil;
        content = (required "application/json" resource_id_response & nil);
      })
      ∷ problem_answer 400
      ∷ problem_answer 401
      ∷ problem_answer 403
      ∷ problem_answer 404
      ∷ problem_answer 409
      ∷ problem_answer 422
      ∷ problem_answer 503
      ∷ [];
}

abbrev pub delete_position_event : Operation
delete_position_event = record {
  name = "deletePositionEvent";
  query = nil;
  header = (optional "X-CSRF-Token" mutation_csrf_token & nil);
  path = (required "id" resource_id & nil);
  body = nil;
  answers =
      (record { status = 204; headers = nil; content = nil })
      ∷ problem_answer 401
      ∷ problem_answer 403
      ∷ problem_answer 404
      ∷ problem_answer 409
      ∷ problem_answer 422
      ∷ problem_answer 503
      ∷ [];
}

abbrev pub create_position_reconciliation : Operation
create_position_reconciliation = record {
  name = "createPositionReconciliation";
  query = nil;
  header = (optional "X-CSRF-Token" mutation_csrf_token & nil);
  path = nil;
  body = (required "application/json" position_reconciliation_create_request & nil);
  answers =
      (record {
        status = 201;
        headers = nil;
        content = (required "application/json" resource_id_response & nil);
      })
      ∷ problem_answer 400
      ∷ problem_answer 401
      ∷ problem_answer 403
      ∷ problem_answer 404
      ∷ problem_answer 409
      ∷ problem_answer 422
      ∷ problem_answer 503
      ∷ [];
}

abbrev pub delete_position_reconciliation : Operation
delete_position_reconciliation = record {
  name = "deletePositionReconciliation";
  query = nil;
  header = (optional "X-CSRF-Token" mutation_csrf_token & nil);
  path = (required "id" resource_id & nil);
  body = nil;
  answers =
      (record { status = 204; headers = nil; content = nil })
      ∷ problem_answer 401
      ∷ problem_answer 403
      ∷ problem_answer 404
      ∷ problem_answer 409
      ∷ problem_answer 422
      ∷ problem_answer 503
      ∷ [];
}

abbrev pub preview_account_conversion : Operation
preview_account_conversion = record {
  name = "previewAccountConversion";
  query = nil;
  header =
      (optional "X-CSRF-Token" mutation_csrf_token
        & optional "Idempotency-Key" idempotency_key
        & nil);
  path = nil;
  body = (required "application/json" account_conversion_request & nil);
  answers =
      (record {
        status = 200;
        headers = nil;
        content = (required "application/json" account_conversion_preview & nil);
      })
      ∷ problem_answer 400
      ∷ problem_answer 401
      ∷ problem_answer 403
      ∷ problem_answer 404
      ∷ problem_answer 409
      ∷ problem_answer 422
      ∷ problem_answer 503
      ∷ [];
}

abbrev pub execute_account_conversion : Operation
execute_account_conversion = record {
  name = "executeAccountConversion";
  query = nil;
  header =
      (optional "X-CSRF-Token" mutation_csrf_token
        & optional "Idempotency-Key" idempotency_key
        & nil);
  path = nil;
  body = (required "application/json" account_conversion_request & nil);
  answers =
      (record {
        status = 200;
        headers = nil;
        content = (required "application/json" account_conversion_result & nil);
      })
      ∷ (record {
        status = 201;
        headers = nil;
        content = (required "application/json" account_conversion_result & nil);
      })
      ∷ problem_answer 400
      ∷ problem_answer 401
      ∷ problem_answer 403
      ∷ problem_answer 404
      ∷ problem_answer 409
      ∷ problem_answer 422
      ∷ problem_answer 503
      ∷ [];
}

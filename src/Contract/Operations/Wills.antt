-- ===== src/Contract/Operations/Wills.antt =====
-- web/src/api/schema.ts: the operations on the estate plan.
use wealthboard.Base.{[], ◌∷◌}
use wealthboard.Contract.{Operation, required, optional, nil, ◌&◌}
use wealthboard.Contract.Schemas.Requests.{required_archive_mutation_request, resource_id_response}
use wealthboard.Contract.Schemas.Wills.{
  beneficiary_input, estate_allocation_input, estate_directive_input, estate_plan,
  estate_plan_input, estate_workspace,
}
use wealthboard.Contract.Shared.{mutation_csrf_token, problem_answer, resource_id}

abbrev pub get_estate_workspace : Operation
get_estate_workspace = record {
  name = "getEstateWorkspace";
  query = nil;
  header = nil;
  path = nil;
  body = nil;
  answers =
      (record {
        status = 200;
        headers = nil;
        content = (required "application/json" estate_workspace & nil);
      })
      ∷ problem_answer 401
      ∷ problem_answer 403
      ∷ [];
}

abbrev pub update_estate_plan : Operation
update_estate_plan = record {
  name = "updateEstatePlan";
  query = nil;
  header = (optional "X-CSRF-Token" mutation_csrf_token & nil);
  path = nil;
  body = (required "application/json" estate_plan_input & nil);
  answers =
      (record {
        status = 200;
        headers = nil;
        content = (required "application/json" estate_plan & nil);
      })
      ∷ problem_answer 400
      ∷ problem_answer 401
      ∷ problem_answer 403
      ∷ problem_answer 404
      ∷ problem_answer 422
      ∷ problem_answer 503
      ∷ [];
}

abbrev pub create_estate_beneficiary : Operation
create_estate_beneficiary = record {
  name = "createEstateBeneficiary";
  query = nil;
  header = (optional "X-CSRF-Token" mutation_csrf_token & nil);
  path = nil;
  body = (required "application/json" beneficiary_input & nil);
  answers =
      (record {
        status = 201;
        headers = nil;
        content = (required "application/json" resource_id_response & nil);
      })
      ∷ problem_answer 400
      ∷ problem_answer 401
      ∷ problem_answer 403
      ∷ problem_answer 404
      ∷ problem_answer 422
      ∷ problem_answer 503
      ∷ [];
}

abbrev pub update_estate_beneficiary : Operation
update_estate_beneficiary = record {
  name = "updateEstateBeneficiary";
  query = nil;
  header = (optional "X-CSRF-Token" mutation_csrf_token & nil);
  path = (required "id" resource_id & nil);
  body = (required "application/json" beneficiary_input & nil);
  answers =
      (record { status = 204; headers = nil; content = nil })
      ∷ problem_answer 400
      ∷ problem_answer 401
      ∷ problem_answer 403
      ∷ problem_answer 404
      ∷ problem_answer 422
      ∷ problem_answer 503
      ∷ [];
}

abbrev pub set_estate_beneficiary_archived : Operation
set_estate_beneficiary_archived = record {
  name = "setEstateBeneficiaryArchived";
  query = nil;
  header = (optional "X-CSRF-Token" mutation_csrf_token & nil);
  path = (required "id" resource_id & nil);
  body = (required "application/json" required_archive_mutation_request & nil);
  answers =
      (record { status = 204; headers = nil; content = nil })
      ∷ problem_answer 400
      ∷ problem_answer 401
      ∷ problem_answer 403
      ∷ problem_answer 404
      ∷ problem_answer 422
      ∷ problem_answer 503
      ∷ [];
}

abbrev pub upsert_estate_directive : Operation
upsert_estate_directive = record {
  name = "upsertEstateDirective";
  query = nil;
  header = (optional "X-CSRF-Token" mutation_csrf_token & nil);
  path = (required "id" resource_id & nil);
  body = (required "application/json" estate_directive_input & nil);
  answers =
      (record {
        status = 200;
        headers = nil;
        content = (required "application/json" resource_id_response & nil);
      })
      ∷ problem_answer 400
      ∷ problem_answer 401
      ∷ problem_answer 403
      ∷ problem_answer 404
      ∷ problem_answer 422
      ∷ problem_answer 503
      ∷ [];
}

abbrev pub upsert_estate_allocation : Operation
upsert_estate_allocation = record {
  name = "upsertEstateAllocation";
  query = nil;
  header = (optional "X-CSRF-Token" mutation_csrf_token & nil);
  path = (required "id" resource_id & nil);
  body = (required "application/json" estate_allocation_input & nil);
  answers =
      (record {
        status = 200;
        headers = nil;
        content = (required "application/json" resource_id_response & nil);
      })
      ∷ problem_answer 400
      ∷ problem_answer 401
      ∷ problem_answer 403
      ∷ problem_answer 404
      ∷ problem_answer 422
      ∷ problem_answer 503
      ∷ [];
}

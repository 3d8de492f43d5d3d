-- ===== src/Contract/Operations/Snapshots.antt =====
-- web/src/api/schema.ts: the operations on the residuary tiers and the snapshots of an estate.
use wealthboard.Base.{[], ◌∷◌}
use wealthboard.Contract.{Operation, required, optional, nil, ◌&◌}
use wealthboard.Contract.Schemas.Requests.{resource_id_response}
use wealthboard.Contract.Schemas.Wills.{estate_allocation_input, estate_snapshot}
use wealthboard.Contract.Shared.{mutation_csrf_token, problem_answer, resource_id}

abbrev pub delete_estate_allocation : Operation
delete_estate_allocation = record {
  name = "deleteEstateAllocation";
  query = nil;
  header = (optional "X-CSRF-Token" mutation_csrf_token & nil);
  path = (required "id" resource_id & nil);
  body = nil;
  answers =
      (record { status = 204; headers = nil; content = nil })
      ∷ problem_answer 401
      ∷ problem_answer 403
      ∷ problem_answer 404
      ∷ problem_answer 422
      ∷ problem_answer 503
      ∷ [];
}

abbrev pub upsert_estate_residuary_allocation : Operation
upsert_estate_residuary_allocation = record {
  name = "upsertEstateResiduaryAllocation";
  query = nil;
  header = (optional "X-CSRF-Token" mutation_csrf_token & nil);
  path = nil;
  body = (required "application/json" estate_allocation_input & nil);
  answers =
      (record {
        status = 200;
        headers = nil;
        content = (required "application/json" resource_id_response & nil);
      })
      ∷ problem_answer 400
      ∷ problem_answer 401
      ∷ problem_answer 403
      ∷ problem_answer 404
      ∷ problem_answer 422
      ∷ problem_answer 503
      ∷ [];
}

abbrev pub delete_estate_residuary_allocation : Operation
delete_estate_residuary_allocation = record {
  name = "deleteEstateResiduaryAllocation";
  query = nil;
  header = (optional "X-CSRF-Token" mutation_csrf_token & nil);
  path = (required "id" resource_id & nil);
  body = nil;
  answers =
      (record { status = 204; headers = nil; content = nil })
      ∷ problem_answer 401
      ∷ problem_answer 403
      ∷ problem_answer 404
      ∷ problem_answer 422
      ∷ problem_answer 503
      ∷ [];
}

abbrev pub create_estate_snapshot : Operation
create_estate_snapshot = record {
  name = "createEstateSnapshot";
  query = nil;
  header = (optional "X-CSRF-Token" mutation_csrf_token & nil);
  path = nil;
  body = nil;
  answers =
      (record {
        status = 201;
        headers = nil;
        content = (required "application/json" estate_snapshot & nil);
      })
      ∷ problem_answer 401
      ∷ problem_answer 403
      ∷ problem_answer 404
      ∷ problem_answer 422
      ∷ problem_answer 503
      ∷ [];
}

abbrev pub get_estate_snapshot : Operation
get_estate_snapshot = record {
  name = "getEstateSnapshot";
  query = nil;
  header = nil;
  path = (required "id" resource_id & nil);
  body = nil;
  answers =
      (record {
        status = 200;
        headers = nil;
        content = (required "application/json" estate_snapshot & nil);
      })
      ∷ problem_answer 401
      ∷ problem_answer 403
      ∷ problem_answer 404
      ∷ [];
}

abbrev pub delete_estate_snapshot : Operation
delete_estate_snapshot = record {
  name = "deleteEstateSnapshot";
  query = nil;
  header = (optional "X-CSRF-Token" mutation_csrf_token & nil);
  path = (required "id" resource_id & nil);
  body = nil;
  answers =
      (record { status = 204; headers = nil; content = nil })
      ∷ problem_answer 401
      ∷ problem_answer 403
      ∷ problem_answer 404
      ∷ problem_answer 422
      ∷ problem_answer 503
      ∷ [];
}

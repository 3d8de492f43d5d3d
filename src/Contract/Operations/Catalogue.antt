-- ===== src/Contract/Operations/Catalogue.antt =====
-- web/src/api/schema.ts: the first operations, on the sign-in configuration, the overview,
-- categories, institutions and exchange rates.
use wealthboard.Base.{[], ◌∷◌}
use wealthboard.Contract.{Operation, list_of, object, required, optional, nil, ◌&◌}
use wealthboard.Contract.Schemas.Ledger.{category, institution}
use wealthboard.Contract.Schemas.Preferences.{exchange_rate}
use wealthboard.Contract.Schemas.Requests.{
  archive_mutation_request, category_mutation_request, category_reorder_request,
  exchange_rate_mutation_request, institution_mutation_request, mutation_status_response,
}
use wealthboard.Contract.Schemas.Values.{auth_config, overview}
use wealthboard.Contract.Shared.{mutation_csrf_token, problem_answer, resource_id}

abbrev pub get_auth_config : Operation
get_auth_config = record {
  name = "getAuthConfig";
  query = nil;
  header = nil;
  path = nil;
  body = nil;
  answers =
      (record {
        status = 200;
        headers = nil;
        content = (required "application/json" auth_config & nil);
      })
      ∷ [];
}

abbrev pub get_overview : Operation
get_overview = record {
  name = "getOverview";
  query = nil;
  header = nil;
  path = nil;
  body = nil;
  answers =
      (record {
        status = 200;
        headers = nil;
        content = (required "application/json" overview & nil);
      })
      ∷ problem_answer 401
      ∷ problem_answer 403
      ∷ [];
}

abbrev pub list_categories : Operation
list_categories = record {
  name = "listCategories";
  query = nil;
  header = nil;
  path = nil;
  body = nil;
  answers =
      (record {
        status = 200;
        headers = nil;
        content =
            (required "application/json" (object (required "items" (list_of category) & nil))
              & nil);
      })
      ∷ problem_answer 401
      ∷ problem_answer 403
      ∷ [];
}

abbrev pub create_category : Operation
create_category = record {
  name = "createCategory";
  query = nil;
  header = (optional "X-CSRF-Token" mutation_csrf_token & nil);
  path = nil;
  body = (required "application/json" category_mutation_request & nil);
  answers =
      (record {
        status = 201;
        headers = nil;
        content = (required "application/json" category & nil);
      })
      ∷ problem_answer 400
      ∷ problem_answer 401
      ∷ problem_answer 403
      ∷ problem_answer 409
      ∷ problem_answer 422
      ∷ problem_answer 503
      ∷ [];
}

abbrev pub update_category : Operation
update_category = record {
  name = "updateCategory";
  query = nil;
  header = (optional "X-CSRF-Token" mutation_csrf_token & nil);
  path = (required "id" resource_id & nil);
  body = (required "application/json" category_mutation_request & nil);
  answers =
      (record {
        status = 200;
        headers = nil;
        content = (required "application/json" mutation_status_response & nil);
      })
      ∷ problem_answer 400
      ∷ problem_answer 401
      ∷ problem_answer 403
      ∷ problem_answer 404
      ∷ problem_answer 409
      ∷ problem_answer 422
      ∷ problem_answer 503
      ∷ [];
}

abbrev pub set_category_archived : Operation
set_category_archived = record {
  name = "setCategoryArchived";
  query = nil;
  header = (optional "X-CSRF-Token" mutation_csrf_token & nil);
  path = (required "id" resource_id & nil);
  body = (required "application/json" archive_mutation_request & nil);
  answers =
      (record {
        status = 200;
        headers = nil;
        content = (required "application/json" mutation_status_response & nil);
      })
      ∷ problem_answer 400
      ∷ problem_answer 401
      ∷ problem_answer 403
      ∷ problem_answer 404
      ∷ problem_answer 409
      ∷ problem_answer 503
      ∷ [];
}

abbrev pub reorder_category : Operation
reorder_category = record {
  name = "reorderCategory";
  query = nil;
  header = (optional "X-CSRF-Token" mutation_csrf_token & nil);
  path = (required "id" resource_id & nil);
  body = (required "application/json" category_reorder_request & nil);
  answers =
      (record {
        status = 200;
        headers = nil;
        content = (required "application/json" mutation_status_response & nil);
      })
      ∷ problem_answer 400
      ∷ problem_answer 401
      ∷ problem_answer 403
      ∷ problem_answer 404
      ∷ problem_answer 422
      ∷ problem_answer 503
      ∷ [];
}

abbrev pub list_institutions : Operation
list_institutions = record {
  name = "listInstitutions";
  query = nil;
  header = nil;
  path = nil;
  body = nil;
  answers =
      (record {
        status = 200;
        headers = nil;
        content =
            (required "application/json" (object (required "items" (list_of institution) & nil))
              & nil);
      })
      ∷ problem_answer 401
      ∷ problem_answer 403
      ∷ [];
}

abbrev pub create_institution : Operation
create_institution = record {
  name = "createInstitution";
  query = nil;
  header = (optional "X-CSRF-Token" mutation_csrf_token & nil);
  path = nil;
  body = (required "application/json" institution_mutation_request & nil);
  answers =
      (record {
        status = 201;
        headers = nil;
        content = (required "application/json" institution & nil);
      })
      ∷ problem_answer 400
      ∷ problem_answer 401
      ∷ problem_answer 403
      ∷ problem_answer 409
      ∷ problem_answer 422
      ∷ problem_answer 503
      ∷ [];
}

abbrev pub update_institution : Operation
update_institution = record {
  name = "updateInstitution";
  query = nil;
  header = (optional "X-CSRF-Token" mutation_csrf_token & nil);
  path = (required "id" resource_id & nil);
  body = (required "application/json" institution_mutation_request & nil);
  answers =
      (record {
        status = 200;
        headers = nil;
        content = (required "application/json" mutation_status_response & nil);
      })
      ∷ problem_answer 400
      ∷ problem_answer 401
      ∷ problem_answer 403
      ∷ problem_answer 404
      ∷ problem_answer 409
      ∷ problem_answer 422
      ∷ problem_answer 503
      ∷ [];
}

abbrev pub set_institution_archived : Operation
set_institution_archived = record {
  name = "setInstitutionArchived";
  query = nil;
  header = (optional "X-CSRF-Token" mutation_csrf_token & nil);
  path = (required "id" resource_id & nil);
  body = (required "application/json" archive_mutation_request & nil);
  answers =
      (record {
        status = 200;
        headers = nil;
        content = (required "application/json" mutation_status_response & nil);
      })
      ∷ problem_answer 400
      ∷ problem_answer 401
      ∷ problem_answer 403
      ∷ problem_answer 404
      ∷ problem_answer 503
      ∷ [];
}

abbrev pub create_exchange_rate : Operation
create_exchange_rate = record {
  name = "createExchangeRate";
  query = nil;
  header = (optional "X-CSRF-Token" mutation_csrf_token & nil);
  path = nil;
  body = (required "application/json" exchange_rate_mutation_request & nil);
  answers =
      (record {
        status = 201;
        headers = nil;
        content = (required "application/json" exchange_rate & nil);
      })
      ∷ problem_answer 400
      ∷ problem_answer 401
      ∷ problem_answer 403
      ∷ problem_answer 404
      ∷ problem_answer 409
      ∷ problem_answer 422
      ∷ problem_answer 503
      ∷ [];
}

abbrev pub delete_exchange_rate : Operation
delete_exchange_rate = record {
  name = "deleteExchangeRate";
  query = nil;
  header = (optional "X-CSRF-Token" mutation_csrf_token & nil);
  path = (required "id" resource_id & nil);
  body = nil;
  answers =
      (record { status = 204; headers = nil; content = nil })
      ∷ problem_answer 401
      ∷ problem_answer 403
      ∷ problem_answer 404
      ∷ problem_answer 503
      ∷ [];
}

-- ===== src/Contract/Operations/Instruments.antt =====
-- web/src/api/schema.ts: the operations on settings, instruments and prices.
use wealthboard.Base.{[], ◌∷◌}
use wealthboard.Contract.{Operation, list_of, object, required, optional, nil, ◌&◌}
use wealthboard.Contract.Schemas.Preferences.{instrument, instrument_detail, settings_read}
use wealthboard.Contract.Schemas.Requests.{
  archive_mutation_request, instrument_mutation_request, mutation_status_response,
  resource_id_response, security_price_mutation_request, settings_mutation_request,
}
use wealthboard.Contract.Shared.{mutation_csrf_token, problem_answer, resource_id}

abbrev pub get_settings : Operation
get_settings = record {
  name = "getSettings";
  query = nil;
  header = nil;
  path = nil;
  body = nil;
  answers =
      (record {
        status = 200;
        headers = nil;
        content = (required "application/json" settings_read & nil);
      })
      ∷ problem_answer 401
      ∷ problem_answer 403
      ∷ [];
}

abbrev pub update_settings : Operation
update_settings = record {
  name = "updateSettings";
  query = nil;
  header = (optional "X-CSRF-Token" mutation_csrf_token & nil);
  path = nil;
  body = (required "application/json" settings_mutation_request & nil);
  answers =
      (record {
        status = 200;
        headers = nil;
        content = (required "application/json" mutation_status_response & nil);
      })
      ∷ problem_answer 400
      ∷ problem_answer 401
      ∷ problem_answer 403
      ∷ problem_answer 404
      ∷ problem_answer 409
      ∷ problem_answer 422
      ∷ problem_answer 503
      ∷ [];
}

abbrev pub list_instruments : Operation
list_instruments = record {
  name = "listInstruments";
  query = nil;
  header = nil;
  path = nil;
  body = nil;
  answers =
      (record {
        status = 200;
        headers = nil;
        content =
            (required "application/json"
                (object (required "instruments" (list_of instrument) & nil))
              & nil);
      })
      ∷ problem_answer 401
      ∷ problem_answer 403
      ∷ [];
}

abbrev pub create_instrument : Operation
create_instrument = record {
  name = "createInstrument";
  query = nil;
  header = (optional "X-CSRF-Token" mutation_csrf_token & nil);
  path = nil;
  body = (required "application/json" instrument_mutation_request & nil);
  answers =
      (record {
        status = 201;
        headers = nil;
        content = (required "application/json" resource_id_response & nil);
      })
      ∷ problem_answer 400
      ∷ problem_answer 401
      ∷ problem_answer 403
      ∷ problem_answer 404
      ∷ problem_answer 409
      ∷ problem_answer 422
      ∷ problem_answer 503
      ∷ [];
}

abbrev pub get_instrument : Operation
get_instrument = record {
  name = "getInstrument";
  query = nil;
  header = nil;
  path = (required "id" resource_id & nil);
  body = nil;
  answers =
      (record {
        status = 200;
        headers = nil;
        content = (required "application/json" instrument_detail & nil);
      })
      ∷ problem_answer 401
      ∷ problem_answer 403
      ∷ problem_answer 404
      ∷ [];
}

abbrev pub update_instrument : Operation
update_instrument = record {
  name = "updateInstrument";
  query = nil;
  header = (optional "X-CSRF-Token" mutation_csrf_token & nil);
  path = (required "id" resource_id & nil);
  body = (required "application/json" instrument_mutation_request & nil);
  answers =
      (record { status = 204; headers = nil; content = nil })
      ∷ problem_answer 400
      ∷ problem_answer 401
      ∷ problem_answer 403
      ∷ problem_answer 404
      ∷ problem_answer 409
      ∷ problem_answer 422
      ∷ problem_answer 503
      ∷ [];
}

abbrev pub delete_instrument : Operation
delete_instrument = record {
  name = "deleteInstrument";
  query = nil;
  header = (optional "X-CSRF-Token" mutation_csrf_token & nil);
  path = (required "id" resource_id & nil);
  body = nil;
  answers =
      (record { status = 204; headers = nil; content = nil })
      ∷ problem_answer 401
      ∷ problem_answer 403
      ∷ problem_answer 404
      ∷ problem_answer 409
      ∷ problem_answer 422
      ∷ problem_answer 503
      ∷ [];
}

abbrev pub set_instrument_archived : Operation
set_instrument_archived = record {
  name = "setInstrumentArchived";
  query = nil;
  header = (optional "X-CSRF-Token" mutation_csrf_token & nil);
  path = (required "id" resource_id & nil);
  body = (required "application/json" archive_mutation_request & nil);
  answers =
      (record { status = 204; headers = nil; content = nil })
      ∷ problem_answer 400
      ∷ problem_answer 401
      ∷ problem_answer 403
      ∷ problem_answer 404
      ∷ problem_answer 409
      ∷ problem_answer 422
      ∷ problem_answer 503
      ∷ [];
}

abbrev pub upsert_security_price : Operation
upsert_security_price = record {
  name = "upsertSecurityPrice";
  query = nil;
  header = (optional "X-CSRF-Token" mutation_csrf_token & nil);
  path = nil;
  body = (required "application/json" security_price_mutation_request & nil);
  answers =
      (record {
        status = 200;
        headers = nil;
        content = (required "application/json" resource_id_response & nil);
      })
      ∷ problem_answer 400
      ∷ problem_answer 401
      ∷ problem_answer 403
      ∷ problem_answer 404
      ∷ problem_answer 409
      ∷ problem_answer 422
      ∷ problem_answer 503
      ∷ [];
}

abbrev pub delete_security_price : Operation
delete_security_price = record {
  name = "deleteSecurityPrice";
  query = nil;
  header = (optional "X-CSRF-Token" mutation_csrf_token & nil);
  path = (required "id" resource_id & nil);
  body = nil;
  answers =
      (record { status = 204; headers = nil; content = nil })
      ∷ problem_answer 401
      ∷ problem_answer 403
      ∷ problem_answer 404
      ∷ problem_answer 409
      ∷ problem_answer 422
      ∷ problem_answer 503
      ∷ [];
}

-- ===== src/Contract/Operations/Imports.antt =====
-- web/src/api/schema.ts: the operations on imports and exports.
use wealthboard.Base.{[], ◌∷◌}
use wealthboard.Contract.{Operation, text, object, required, optional, nil, ◌&◌}
use wealthboard.Contract.Schemas.Imports.{
  account_history_import_result, investment_history_import_result, restore_summary, user_archive,
}
use wealthboard.Contract.Shared.{
  account_id, accounts_disposition, import_commit, import_preview, mutation_csrf_token, no_store,
  preview_hash, problem_answer, transactions_disposition, user_archive_disposition,
}

abbrev pub preview_account_history_import : Operation
preview_account_history_import = record {
  name = "previewAccountHistoryImport";
  query = nil;
  header = (optional "X-CSRF-Token" mutation_csrf_token & nil);
  path = (required "accountID" account_id & nil);
  body = import_preview;
  answers =
      (record {
        status = 200;
        headers = (required "Cache-Control" no_store & nil);
        content = (required "application/json" account_history_import_result & nil);
      })
      ∷ problem_answer 400
      ∷ problem_answer 401
      ∷ problem_answer 403
      ∷ problem_answer 404
      ∷ problem_answer 409
      ∷ problem_answer 413
      ∷ problem_answer 422
      ∷ problem_answer 503
      ∷ [];
}

abbrev pub commit_account_history_import : Operation
commit_account_history_import = record {
  name = "commitAccountHistoryImport";
  query = nil;
  header =
      (optional "X-CSRF-Token" mutation_csrf_token & optional "X-Preview-Hash" preview_hash & nil);
  path = (required "accountID" account_id & nil);
  body = import_commit;
  answers =
      (record {
        status = 200;
        headers = (required "Cache-Control" no_store & nil);
        content = (required "application/json" account_history_import_result & nil);
      })
      ∷ problem_answer 400
      ∷ problem_answer 401
      ∷ problem_answer 403
      ∷ problem_answer 404
      ∷ problem_answer 409
      ∷ problem_answer 413
      ∷ problem_answer 422
      ∷ problem_answer 503
      ∷ [];
}

abbrev pub preview_investment_history_import : Operation
preview_investment_history_import = record {
  name = "previewInvestmentHistoryImport";
  query = nil;
  header = (optional "X-CSRF-Token" mutation_csrf_token & nil);
  path = (required "accountID" account_id & nil);
  body = import_preview;
  answers =
      (record {
        status = 200;
        headers = (required "Cache-Control" no_store & nil);
        content = (required "application/json" investment_history_import_result & nil);
      })
      ∷ problem_answer 400
      ∷ problem_answer 401
      ∷ problem_answer 403
      ∷ problem_answer 404
      ∷ problem_answer 409
      ∷ problem_answer 413
      ∷ problem_answer 422
      ∷ problem_answer 503
      ∷ [];
}

abbrev pub commit_investment_history_import : Operation
commit_investment_history_import = record {
  name = "commitInvestmentHistoryImport";
  query = nil;
  header =
      (optional "X-CSRF-Token" mutation_csrf_token & optional "X-Preview-Hash" preview_hash & nil);
  path = (required "accountID" account_id & nil);
  body = import_commit;
  answers =
      (record {
        status = 200;
        headers = (required "Cache-Control" no_store & nil);
        content = (required "application/json" investment_history_import_result & nil);
      })
      ∷ problem_answer 400
      ∷ problem_answer 401
      ∷ problem_answer 403
      ∷ problem_answer 404
      ∷ problem_answer 409
      ∷ problem_answer 413
      ∷ problem_answer 422
      ∷ problem_answer 503
      ∷ [];
}

abbrev pub export_user_archive : Operation
export_user_archive = record {
  name = "exportUserArchive";
  query = nil;
  header = nil;
  path = nil;
  body = nil;
  answers =
      (record {
        status = 200;
        headers =
            (required "Content-Disposition" user_archive_disposition
              & required "Cache-Control" no_store
              & nil);
        content = (required "application/json" user_archive & nil);
      })
      ∷ problem_answer 401
      ∷ problem_answer 403
      ∷ problem_answer 404
      ∷ problem_answer 413
      ∷ problem_answer 422
      ∷ problem_answer 503
      ∷ [];
}

abbrev pub export_transactions_csv : Operation
export_transactions_csv = record {
  name = "exportTransactionsCsv";
  query = nil;
  header = nil;
  path = nil;
  body = nil;
  answers =
      (record {
        status = 200;
        headers =
            (required "Content-Disposition" transactions_disposition
              & required "Cache-Control" no_store
              & nil);
        content = (required "text/csv" text & nil);
      })
      ∷ problem_answer 401
      ∷ problem_answer 403
      ∷ problem_answer 404
      ∷ problem_answer 422
      ∷ problem_answer 503
      ∷ [];
}

abbrev pub export_accounts_csv : Operation
export_accounts_csv = record {
  name = "exportAccountsCsv";
  query = nil;
  header = nil;
  path = nil;
  body = nil;
  answers =
      (record {
        status = 200;
        headers =
            (required "Content-Disposition" accounts_disposition
              & required "Cache-Control" no_store
              & nil);
        content = (required "text/csv" text & nil);
      })
      ∷ problem_answer 401
      ∷ problem_answer 403
      ∷ problem_answer 404
      ∷ problem_answer 422
      ∷ problem_answer 503
      ∷ [];
}

abbrev pub restore_user_archive : Operation
restore_user_archive = record {
  name = "restoreUserArchive";
  query = nil;
  header = (optional "X-CSRF-Token" mutation_csrf_token & nil);
  path = nil;
  body =
      (required "application/json" user_archive
        & required "multipart/form-data" (object (required "file" text & nil))
        & nil);
  answers =
      (record {
        status = 200;
        headers = nil;
        content = (required "application/json" restore_summary & nil);
      })
      ∷ problem_answer 400
      ∷ problem_answer 401
      ∷ problem_answer 403
      ∷ problem_answer 404
      ∷ problem_answer 413
      ∷ problem_answer 422
      ∷ problem_answer 503
      ∷ [];
}

-- ===== src/Contract/Shared.antt =====
-- web/src/api/schema.ts: the headers, parameters, request bodies and responses that operations share.
use wealthboard.Base.{ℕ}
use wealthboard.Contract.{
  Shape, Members, Answer, text, number, constant, one_of, object, required, optional, nil, ◌&◌,
}
use wealthboard.Contract.Schemas.Access.{problem}
use wealthboard.Contract.Schemas.Actions.{event_group_response}
use wealthboard.Contract.Schemas.Imports.{
  account_history_import_envelope, investment_history_import_envelope,
}
use wealthboard.Contract.Schemas.Ledger.{transaction_type}

abbrev pub no_store : Shape
no_store = constant "no-store"

abbrev pub user_archive_disposition : Shape
user_archive_disposition = constant "attachment; filename=\"wealthboard-export.json\""

abbrev pub transactions_disposition : Shape
transactions_disposition = constant "attachment; filename=\"wealthboard-transactions.csv\""

abbrev pub accounts_disposition : Shape
accounts_disposition = constant "attachment; filename=\"wealthboard-accounts.csv\""

abbrev pub csrf_token : Shape
csrf_token = text

abbrev pub mutation_csrf_token : Shape
mutation_csrf_token = text

abbrev pub idempotency_key : Shape
idempotency_key = text

abbrev pub preview_hash : Shape
preview_hash = text

abbrev pub account_id : Shape
account_id = text

abbrev pub resource_id : Shape
resource_id = text

abbrev pub archived_filter : Shape
archived_filter = one_of (constant "active") (one_of (constant "archived") (constant "all"))

abbrev pub account_id_filter : Shape
account_id_filter = text

abbrev pub transaction_type_filter : Shape
transaction_type_filter = transaction_type

abbrev pub from_date : Shape
from_date = text

abbrev pub to_date : Shape
to_date = text

abbrev pub limit : Shape
limit = number

abbrev pub offset : Shape
offset = number

abbrev pub report_range : Shape
report_range =
    one_of (constant "1m")
      (one_of (constant "3m") (one_of (constant "6m") (one_of (constant "1y") (constant "all"))))

abbrev pub activity_kind_filter : Shape
activity_kind_filter =
    one_of (constant "transaction")
      (one_of (constant "valuation") (one_of (constant "position") (constant "price")))

abbrev pub activity_type_filter : Shape
activity_type_filter = text

abbrev pub activity_search : Shape
activity_search = text

abbrev pub import_preview : Members
import_preview =
    (required "application/json"
        (one_of account_history_import_envelope investment_history_import_envelope)
      & required "text/csv" text
      & required "application/csv" text
      & required "multipart/form-data" (
          object (
            required "file" text
            & optional "format" (one_of (constant "csv") (constant "json"))
            & nil))
      & nil)

abbrev pub import_commit : Members
import_commit =
    (required "application/json"
        (one_of account_history_import_envelope investment_history_import_envelope)
      & required "text/csv" text
      & required "application/csv" text
      & required "multipart/form-data" (
          object (
            required "file" text
            & optional "format" (one_of (constant "csv") (constant "json"))
            & required "hash" text
            & nil))
      & nil)

-- The statuses that share it say which one they are.
abbrev pub corporate_action_created : ℕ → Answer
corporate_action_created code = record {
  status = code;
  headers = nil;
  content = (required "application/json" event_group_response & nil);
}

-- The statuses that share it say which one they are.
abbrev pub problem_answer : ℕ → Answer
problem_answer code = record {
  status = code;
  headers = nil;
  content = (required "application/problem+json" problem & nil);
}

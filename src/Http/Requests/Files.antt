-- ===== src/Http/Requests/Files.antt =====
-- web/src/api/http/httpAdapter.ts: the requests of imports and exports.
use wealthboard.Base.{[], ◌++◌, Option, none, some, Text, codes}
use wealthboard.Http.Calls.{
  ImportsCall, imports_preview_account_history, imports_commit_account_history,
  imports_preview_investment_history, imports_commit_investment_history, ExportsCall,
  exports_user_archive, exports_transactions_csv, exports_accounts_csv, exports_restore,
  exports_restore_file,
}
use wealthboard.Http.Inputs.{ImportFile, format_type}
use wealthboard.Http.{Body, empty, json, upload, form, Request}
use wealthboard.Http.Transport.{typed, raw, get_json, send_json}
use wealthboard.Json.{json_object, get_field, set_field}
use wealthboard.Contract.{get, post}

-- `importBody`, whose content goes under the content type of its format.
abbrev file_body : ImportFile → Body
file_body file = upload (format_type file.format) file.content

unfoldable pub imports_request : Option Text → ImportsCall → Request
unfolding typed raw get_json send_json get_field set_field
imports_request token (imports_preview_account_history account file) =
    raw token (codes "/accounts/" ++ account ++ codes "/history-import/preview") post [] none none
      (file_body file)
imports_request token (imports_commit_account_history account file hash) =
    raw token (codes "/accounts/" ++ account ++ codes "/history-import/commit") post [] none
      (some hash) (file_body file)
imports_request token (imports_preview_investment_history account file) =
    raw token (codes "/accounts/" ++ account ++ codes "/investment-import/preview") post [] none
      none (file_body file)
imports_request token (imports_commit_investment_history account file hash) =
    raw token (codes "/accounts/" ++ account ++ codes "/investment-import/commit") post [] none
      (some hash) (file_body file)

unfoldable pub exports_request : Option Text → ExportsCall → Request
unfolding typed raw get_json send_json get_field set_field
exports_request token exports_user_archive = typed token get "/exports/user" [] [] [] empty
exports_request token exports_transactions_csv =
    raw token (codes "/exports/transactions.csv") get [] none none empty
exports_request token exports_accounts_csv =
    raw token (codes "/exports/accounts.csv") get [] none none empty
exports_request token (exports_restore archive) =
    typed token post "/restore/user" [] [] [] (json (json_object archive))
exports_request token exports_restore_file =
    raw token (codes "/restore/user") post [] none none form

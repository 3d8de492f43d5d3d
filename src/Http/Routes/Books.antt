-- ===== src/Http/Routes/Books.antt =====
-- web/src/api/http/httpAdapter.ts: the requests of the dashboard, accounts, activity and the ledger
-- against the contract.
use wealthboard.Base.{All, ℕ, List, ◌∷◌, some, none, Text, refl, [], codes, arith}
use wealthboard.Contract.{get}
use wealthboard.Http.Requests.Books.{dashboard_request}
use wealthboard.Http.Requests.Books.{accounts_request}
use wealthboard.Http.Requests.Books.{activity_request}
use wealthboard.Http.Requests.Books.{transactions_request}
use wealthboard.Http.Requests.Books.{valuations_request}
use wealthboard.Http.Requests.Books.{transfers_request}
use wealthboard.Http.Routes.Expected.Books.{
  dashboard_operation, accounts_operation, activity_operation, transactions_operation,
  valuations_operation, transfers_operation,
}
use wealthboard.Http.Calls.{
  DashboardCall, dashboard_get, AccountsCall, accounts_list, accounts_summaries, accounts_get,
  accounts_create, accounts_update, accounts_set_archived, accounts_remove, accounts_analytics,
  accounts_extras, accounts_activity, accounts_transactions, accounts_valuations,
  accounts_position_events, ActivityCall, activity_list, TransactionsCall, transactions_create,
  transactions_update, transactions_remove, ValuationsCall, valuations_create, valuations_remove,
  TransfersCall, transfers_create,
}
use wealthboard.Http.Inputs.{paging, page, activity_entries}
use wealthboard.Http.Routes.{split, operations_for, fulfils, Conforms}
use wealthboard.Http.Routes.Segments.{
  IsSegment, are_declared-given, are_declared-non_empty, at_middle,
}
use wealthboard.Contract.Operations.Accounts.{
  list_account_transactions, list_account_valuations, list_account_activity,
  list_account_position_events,
}

-- The IDs that a call writes into a path.
abbrev pub accounts_ids : AccountsCall → List Text
accounts_ids (accounts_extras i) = i ∷ []
accounts_ids _ = []

-- The adapter holds a token, which is not empty.
module _ (first : ℕ) (tail : Text) where
  pub dashboard_request-Conforms :
      (x : DashboardCall)
      → Conforms (dashboard_request (some (first ∷ tail)) x) (dashboard_operation x)
  unfolding dashboard_request operations_for fulfils split
  dashboard_request-Conforms (dashboard_get r) = (refl, refl)

  pub accounts_request-Conforms :
      (x : AccountsCall)
      → All IsSegment (accounts_ids x)
      → Conforms (accounts_request (some (first ∷ tail)) x) (accounts_operation x)
  unfolding accounts_request operations_for fulfils split
  accounts_request-Conforms (accounts_list a) _ = (refl, refl)
  accounts_request-Conforms accounts_summaries _ = (refl, refl)
  accounts_request-Conforms (accounts_get i) _ = (refl, refl)
  accounts_request-Conforms (accounts_create b) _ = (refl, refl)
  accounts_request-Conforms (accounts_update i b) _ = (refl, refl)
  accounts_request-Conforms (accounts_set_archived i a) _ = (refl, refl)
  accounts_request-Conforms (accounts_remove i n) _ = (refl, refl)
  accounts_request-Conforms (accounts_analytics i) _ = (refl, refl)
  accounts_request-Conforms (accounts_extras []) ((e, u), _) = absurd (ground arith)
  accounts_request-Conforms (accounts_extras (c ∷ s)) ((_, u), _) = (
    at_middle get (codes "/accounts/") ([] ∷ codes "accounts" ∷ []) (λ t. refl) (c ∷ s) u
        (codes "extras") (codes "extras" ∷ []) refl refl,
    refl,
  )
  accounts_request-Conforms (accounts_activity i none) _ =
      (refl, are_declared-given (page none) list_account_activity.query refl)
  accounts_request-Conforms (accounts_activity i (some q)) _ =
      (refl, are_declared-given (page (some q)) list_account_activity.query refl)
  accounts_request-Conforms (accounts_transactions i none) _ =
      (refl, are_declared-given (page none) list_account_transactions.query refl)
  accounts_request-Conforms (accounts_transactions i (some q)) _ =
      (refl, are_declared-given (page (some q)) list_account_transactions.query refl)
  accounts_request-Conforms (accounts_valuations i none) _ =
      (refl, are_declared-given (page none) list_account_valuations.query refl)
  accounts_request-Conforms (accounts_valuations i (some q)) _ =
      (refl, are_declared-given (page (some q)) list_account_valuations.query refl)
  accounts_request-Conforms (accounts_position_events i none) _ =
      (refl, are_declared-given (paging none) list_account_position_events.query refl)
  accounts_request-Conforms (accounts_position_events i (some q)) _ =
      (refl, are_declared-given (paging (some q)) list_account_position_events.query refl)

  pub activity_request-Conforms :
      (x : ActivityCall)
      → Conforms (activity_request (some (first ∷ tail)) x) (activity_operation x)
  unfolding activity_request operations_for fulfils split
  activity_request-Conforms (activity_list q) =
      (refl, are_declared-non_empty (activity_entries q) _ refl)

  pub transactions_request-Conforms :
      (x : TransactionsCall)
      → Conforms (transactions_request (some (first ∷ tail)) x) (transactions_operation x)
  unfolding transactions_request operations_for fulfils split
  transactions_request-Conforms (transactions_create b) = (refl, refl)
  transactions_request-Conforms (transactions_update i b) = (refl, refl)
  transactions_request-Conforms (transactions_remove i) = (refl, refl)

  pub valuations_request-Conforms :
      (x : ValuationsCall)
      → Conforms (valuations_request (some (first ∷ tail)) x) (valuations_operation x)
  unfolding valuations_request operations_for fulfils split
  valuations_request-Conforms (valuations_create b) = (refl, refl)
  valuations_request-Conforms (valuations_remove i) = (refl, refl)

  pub transfers_request-Conforms :
      (x : TransfersCall)
      → Conforms (transfers_request (some (first ∷ tail)) x) (transfers_operation x)
  unfolding transfers_request operations_for fulfils split
  transfers_request-Conforms (transfers_create b) = (refl, refl)

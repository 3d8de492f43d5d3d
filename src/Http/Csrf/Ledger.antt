-- ===== src/Http/Csrf/Ledger.antt =====
-- web/src/api/http/httpAdapter.ts: the CSRF token on the requests of the ledger and the holdings.
use wealthboard.Base.{ℕ, [], ◌∷◌, some, Text, codes, same, refl, arith}
use wealthboard.Http.Requests.Books.{
  dashboard_request, accounts_request, activity_request, transactions_request, valuations_request,
  transfers_request,
}
use wealthboard.Http.Requests.Positions.{
  instruments_request, prices_request, position_events_request, reconciliations_request,
  conversions_request, corporate_actions_request,
}
use wealthboard.Http.Calls.{
  DashboardCall, dashboard_get, AccountsCall, accounts_list, accounts_summaries, accounts_get,
  accounts_create, accounts_update, accounts_set_archived, accounts_remove, accounts_analytics,
  accounts_extras, accounts_activity, accounts_transactions, accounts_valuations,
  accounts_position_events, ActivityCall, activity_list, TransactionsCall, transactions_create,
  transactions_update, transactions_remove, ValuationsCall, valuations_create, valuations_remove,
  TransfersCall, transfers_create, InstrumentsCall, instruments_list, instruments_get,
  instruments_holdings, instruments_create, instruments_update, instruments_set_archived,
  instruments_remove, PricesCall, prices_upsert, prices_remove, PositionEventsCall,
  position_events_get, position_events_create, position_events_update, position_events_remove,
  ReconciliationsCall, reconciliations_list, reconciliations_create, reconciliations_remove,
  ConversionsCall, conversions_preview, conversions_execute, CorporateActionsCall,
  corporate_actions_create, corporate_actions_remove,
}
use wealthboard.Http.Inputs.{
  stock_splits, spinoffs, mergers, dividend_reinvestments, in_kind_transfers,
}
use wealthboard.Http.Csrf.{header_of, header_of-set_header, header_of-set_if, Carries}
use wealthboard.Http.Transport.{given}
use wealthboard.Json.{get_field, as_text}

module _ (first : ℕ) (tail : Text) where
  pub dashboard_request-Carries :
      (x : DashboardCall) → Carries (first ∷ tail) (dashboard_request (some (first ∷ tail)) x)
  unfolding dashboard_request header_of same
  dashboard_request-Carries (dashboard_get r) = λ m. absurd (ground arith)

  pub accounts_request-Carries :
      (x : AccountsCall) → Carries (first ∷ tail) (accounts_request (some (first ∷ tail)) x)
  unfolding accounts_request header_of same
  accounts_request-Carries (accounts_list a) = λ m. absurd (ground arith)
  accounts_request-Carries accounts_summaries = λ m. absurd (ground arith)
  accounts_request-Carries (accounts_get i) = λ m. absurd (ground arith)
  accounts_request-Carries (accounts_create b) = λ m.
      header_of-set_header "X-CSRF-Token" (first ∷ tail)
        (given (("Idempotency-Key", as_text (get_field "idempotencyKey" b)) ∷ []))
  accounts_request-Carries (accounts_update i b) = λ m. refl
  accounts_request-Carries (accounts_set_archived i a) = λ m. refl
  accounts_request-Carries (accounts_remove i n) = λ m. refl
  accounts_request-Carries (accounts_analytics i) = λ m. absurd (ground arith)
  accounts_request-Carries (accounts_extras i) = λ m. absurd (ground arith)
  accounts_request-Carries (accounts_activity i q) = λ m. absurd (ground arith)
  accounts_request-Carries (accounts_transactions i q) = λ m. absurd (ground arith)
  accounts_request-Carries (accounts_valuations i q) = λ m. absurd (ground arith)
  accounts_request-Carries (accounts_position_events i q) = λ m. absurd (ground arith)

  pub activity_request-Carries :
      (x : ActivityCall) → Carries (first ∷ tail) (activity_request (some (first ∷ tail)) x)
  unfolding activity_request header_of same
  activity_request-Carries (activity_list q) = λ m. absurd (ground arith)

  pub transactions_request-Carries :
      (x : TransactionsCall) → Carries (first ∷ tail) (transactions_request (some (first ∷ tail)) x)
  unfolding transactions_request header_of same
  transactions_request-Carries (transactions_create b) = λ m.
      header_of-set_header "X-CSRF-Token" (first ∷ tail)
        (given (("Idempotency-Key", as_text (get_field "idempotencyKey" b)) ∷ []))
  transactions_request-Carries (transactions_update i b) = λ m. refl
  transactions_request-Carries (transactions_remove i) = λ m. refl

  pub valuations_request-Carries :
      (x : ValuationsCall) → Carries (first ∷ tail) (valuations_request (some (first ∷ tail)) x)
  unfolding valuations_request header_of same
  valuations_request-Carries (valuations_create b) = λ m.
      header_of-set_header "X-CSRF-Token" (first ∷ tail)
        (given (("Idempotency-Key", as_text (get_field "idempotencyKey" b)) ∷ []))
  valuations_request-Carries (valuations_remove i) = λ m. refl

  pub transfers_request-Carries :
      (x : TransfersCall) → Carries (first ∷ tail) (transfers_request (some (first ∷ tail)) x)
  unfolding transfers_request header_of same
  transfers_request-Carries (transfers_create b) = λ m.
      header_of-set_header "X-CSRF-Token" (first ∷ tail)
        (given (("Idempotency-Key", as_text (get_field "idempotencyKey" b)) ∷ []))

  pub instruments_request-Carries :
      (x : InstrumentsCall) → Carries (first ∷ tail) (instruments_request (some (first ∷ tail)) x)
  unfolding instruments_request header_of same
  instruments_request-Carries instruments_list = λ m. absurd (ground arith)
  instruments_request-Carries (instruments_get i) = λ m. absurd (ground arith)
  instruments_request-Carries (instruments_holdings i) = λ m. absurd (ground arith)
  instruments_request-Carries (instruments_create b) = λ m. refl
  instruments_request-Carries (instruments_update i b) = λ m. refl
  instruments_request-Carries (instruments_set_archived i a) = λ m. refl
  instruments_request-Carries (instruments_remove i) = λ m. refl

  pub prices_request-Carries :
      (x : PricesCall) → Carries (first ∷ tail) (prices_request (some (first ∷ tail)) x)
  unfolding prices_request header_of same
  prices_request-Carries (prices_upsert b k) = λ m. refl
  prices_request-Carries (prices_remove i) = λ m. refl

  pub position_events_request-Carries :
      (x : PositionEventsCall)
      → Carries (first ∷ tail) (position_events_request (some (first ∷ tail)) x)
  unfolding position_events_request header_of same
  position_events_request-Carries (position_events_get i j) = λ m. absurd (ground arith)
  position_events_request-Carries (position_events_create b) = λ m.
      header_of-set_header "X-CSRF-Token" (first ∷ tail)
        (given (("Idempotency-Key", as_text (get_field "idempotencyKey" b)) ∷ []))
  position_events_request-Carries (position_events_update i b) = λ m. refl
  position_events_request-Carries (position_events_remove i) = λ m. refl

  pub reconciliations_request-Carries :
      (x : ReconciliationsCall)
      → Carries (first ∷ tail) (reconciliations_request (some (first ∷ tail)) x)
  unfolding reconciliations_request header_of same
  reconciliations_request-Carries (reconciliations_list i q) = λ m. absurd (ground arith)
  reconciliations_request-Carries (reconciliations_create b) = λ m. refl
  reconciliations_request-Carries (reconciliations_remove i) = λ m. refl

  pub conversions_request-Carries :
      (x : ConversionsCall) → Carries (first ∷ tail) (conversions_request (some (first ∷ tail)) x)
  unfolding conversions_request header_of same
  conversions_request-Carries (conversions_preview b k) = λ m.
      header_of-set_if "X-CSRF-Token" "Idempotency-Key" k
        (("Content-Type", codes "application/json") ∷ ("X-CSRF-Token", first ∷ tail) ∷ []) refl
  conversions_request-Carries (conversions_execute b k) = λ m.
      header_of-set_if "X-CSRF-Token" "Idempotency-Key" k
        (("Content-Type", codes "application/json") ∷ ("X-CSRF-Token", first ∷ tail) ∷ []) refl

  pub corporate_actions_request-Carries :
      (x : CorporateActionsCall)
      → Carries (first ∷ tail) (corporate_actions_request (some (first ∷ tail)) x)
  unfolding corporate_actions_request header_of same
  corporate_actions_request-Carries (corporate_actions_create stock_splits b k) = λ m.
      header_of-set_if "X-CSRF-Token" "Idempotency-Key" k
        (("Content-Type", codes "application/json") ∷ ("X-CSRF-Token", first ∷ tail) ∷ []) refl
  corporate_actions_request-Carries (corporate_actions_create spinoffs b k) = λ m.
      header_of-set_if "X-CSRF-Token" "Idempotency-Key" k
        (("Content-Type", codes "application/json") ∷ ("X-CSRF-Token", first ∷ tail) ∷ []) refl
  corporate_actions_request-Carries (corporate_actions_create mergers b k) = λ m.
      header_of-set_if "X-CSRF-Token" "Idempotency-Key" k
        (("Content-Type", codes "application/json") ∷ ("X-CSRF-Token", first ∷ tail) ∷ []) refl
  corporate_actions_request-Carries (corporate_actions_create dividend_reinvestments b k) = λ m.
      header_of-set_if "X-CSRF-Token" "Idempotency-Key" k
        (("Content-Type", codes "application/json") ∷ ("X-CSRF-Token", first ∷ tail) ∷ []) refl
  corporate_actions_request-Carries (corporate_actions_create in_kind_transfers b k) = λ m.
      header_of-set_if "X-CSRF-Token" "Idempotency-Key" k
        (("Content-Type", codes "application/json") ∷ ("X-CSRF-Token", first ∷ tail) ∷ []) refl
  corporate_actions_request-Carries (corporate_actions_remove i) = λ m. refl

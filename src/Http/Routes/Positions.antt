-- ===== src/Http/Routes/Positions.antt =====
-- web/src/api/http/httpAdapter.ts: the requests of instruments, prices, trades and corporate actions
-- against the contract.
use wealthboard.Base.{All, ap, ℕ, List, ◌∷◌, ◌++◌, some, none, Text, refl, [], codes, arith}
use wealthboard.Contract.{get, put, delete}
use wealthboard.Http.Requests.Positions.{instruments_request}
use wealthboard.Http.Requests.Positions.{prices_request}
use wealthboard.Http.Requests.Positions.{position_events_request}
use wealthboard.Http.Requests.Positions.{reconciliations_request}
use wealthboard.Http.Requests.Positions.{conversions_request}
use wealthboard.Http.Requests.Positions.{corporate_actions_request}
use wealthboard.Http.Routes.Expected.Positions.{
  instruments_operation, prices_operation, position_events_operation, reconciliations_operation,
  conversions_operation, corporate_actions_operation,
}
use wealthboard.Http.Calls.{
  InstrumentsCall, instruments_list, instruments_get, instruments_holdings, instruments_create,
  instruments_update, instruments_set_archived, instruments_remove, PricesCall, prices_upsert,
  prices_remove, PositionEventsCall, position_events_get, position_events_create,
  position_events_update, position_events_remove, ReconciliationsCall, reconciliations_list,
  reconciliations_create, reconciliations_remove, ConversionsCall, conversions_preview,
  conversions_execute, CorporateActionsCall, corporate_actions_create, corporate_actions_remove,
}
use wealthboard.Http.Inputs.{
  stock_splits, spinoffs, mergers, dividend_reinvestments, in_kind_transfers, paging,
}
use wealthboard.Http.Routes.{split, operations_for, fulfils, Conforms}
use wealthboard.Http.Routes.Segments.{
  IsSegment, split-unbroken, are_declared-non_empty, at_end, at_middle,
}
use wealthboard.Contract.Operations.Accounts.{list_account_position_reconciliations}

-- The IDs that a call writes into a path.
abbrev pub instruments_ids : InstrumentsCall → List Text
instruments_ids (instruments_holdings i) = i ∷ []
instruments_ids (instruments_remove i) = i ∷ []
instruments_ids _ = []

-- The IDs that a call writes into a path.
abbrev pub position_events_ids : PositionEventsCall → List Text
position_events_ids (position_events_get i j) = i ∷ j ∷ []
position_events_ids (position_events_update i _) = i ∷ []
position_events_ids _ = []

-- The IDs that a call writes into a path.
abbrev pub reconciliations_ids : ReconciliationsCall → List Text
reconciliations_ids (reconciliations_list i _) = i ∷ []
reconciliations_ids (reconciliations_remove i) = i ∷ []
reconciliations_ids _ = []

-- The IDs that a call writes into a path.
abbrev pub corporate_actions_ids : CorporateActionsCall → List Text
corporate_actions_ids (corporate_actions_remove i) = i ∷ []
corporate_actions_ids _ = []

-- The adapter holds a token, which is not empty.
module _ (first : ℕ) (tail : Text) where
  pub instruments_request-Conforms :
      (x : InstrumentsCall)
      → All IsSegment (instruments_ids x)
      → Conforms (instruments_request (some (first ∷ tail)) x) (instruments_operation x)
  unfolding instruments_request operations_for fulfils split
  instruments_request-Conforms instruments_list _ = (refl, refl)
  instruments_request-Conforms (instruments_get i) _ = (refl, refl)
  instruments_request-Conforms (instruments_holdings []) ((e, u), _) = absurd (ground arith)
  instruments_request-Conforms (instruments_holdings (c ∷ s)) ((_, u), _) = (
    at_middle get (codes "/instruments/") ([] ∷ codes "instruments" ∷ []) (λ t. refl) (c ∷ s) u
        (codes "holdings") (codes "holdings" ∷ []) refl refl,
    refl,
  )
  instruments_request-Conforms (instruments_create b) _ = (refl, refl)
  instruments_request-Conforms (instruments_update i b) _ = (refl, refl)
  instruments_request-Conforms (instruments_set_archived i a) _ = (refl, refl)
  instruments_request-Conforms (instruments_remove []) ((e, u), _) = absurd (ground arith)
  instruments_request-Conforms (instruments_remove (c ∷ s)) ((_, u), _) = (
    at_end delete (codes "/instruments/") ([] ∷ codes "instruments" ∷ []) (λ t. refl) (c ∷ s) u
        refl,
    refl,
  )

  pub prices_request-Conforms :
      (x : PricesCall) → Conforms (prices_request (some (first ∷ tail)) x) (prices_operation x)
  unfolding prices_request operations_for fulfils split
  prices_request-Conforms (prices_upsert b k) = (refl, refl)
  prices_request-Conforms (prices_remove i) = (refl, refl)

  pub position_events_request-Conforms :
      (x : PositionEventsCall)
      → All IsSegment (position_events_ids x)
      → Conforms (position_events_request (some (first ∷ tail)) x) (position_events_operation x)
  unfolding position_events_request operations_for fulfils split
  position_events_request-Conforms (position_events_get [] j) ((e, u), _) = absurd (ground arith)
  position_events_request-Conforms (position_events_get (c ∷ s) []) (_, ((e, u), _)) =
      absurd (ground arith)
  position_events_request-Conforms (position_events_get (c ∷ s) (d ∷ t)) ((_, u), ((_, v), _)) = (
    at_middle get (codes "/accounts/") ([] ∷ codes "accounts" ∷ []) (λ t. refl) (c ∷ s) u
        (codes "position-events/" ++ d ∷ t) (codes "position-events" ∷ (d ∷ t) ∷ [])
        (ap (λ (qs : List Text). codes "position-events" ∷ qs) (split-unbroken (d ∷ t) v)) refl,
    refl,
  )
  position_events_request-Conforms (position_events_create b) _ = (refl, refl)
  position_events_request-Conforms (position_events_update [] b) ((e, u), _) = absurd (ground arith)
  position_events_request-Conforms (position_events_update (c ∷ s) b) ((_, u), _) = (
    at_end put (codes "/position-events/") ([] ∷ codes "position-events" ∷ []) (λ t. refl) (c ∷ s) u
        refl,
    refl,
  )
  position_events_request-Conforms (position_events_remove i) _ = (refl, refl)

  pub reconciliations_request-Conforms :
      (x : ReconciliationsCall)
      → All IsSegment (reconciliations_ids x)
      → Conforms (reconciliations_request (some (first ∷ tail)) x) (reconciliations_operation x)
  unfolding reconciliations_request operations_for fulfils split
  reconciliations_request-Conforms (reconciliations_list [] q) ((e, u), _) = absurd (ground arith)
  reconciliations_request-Conforms (reconciliations_list (c ∷ s) none) ((_, u), _) = (
    at_middle get (codes "/accounts/") ([] ∷ codes "accounts" ∷ []) (λ t. refl) (c ∷ s) u
        (codes "position-reconciliations") (codes "position-reconciliations" ∷ []) refl refl,
    are_declared-non_empty (paging none) list_account_position_reconciliations.query refl,
  )
  reconciliations_request-Conforms (reconciliations_list (c ∷ s) (some q)) ((_, u), _) = (
    at_middle get (codes "/accounts/") ([] ∷ codes "accounts" ∷ []) (λ t. refl) (c ∷ s) u
        (codes "position-reconciliations") (codes "position-reconciliations" ∷ []) refl refl,
    are_declared-non_empty (paging (some q)) list_account_position_reconciliations.query refl,
  )
  reconciliations_request-Conforms (reconciliations_create b) _ = (refl, refl)
  reconciliations_request-Conforms (reconciliations_remove []) ((e, u), _) = absurd (ground arith)
  reconciliations_request-Conforms (reconciliations_remove (c ∷ s)) ((_, u), _) = (
    at_end delete (codes "/position-reconciliations/") ([] ∷ codes "position-reconciliations" ∷ [])
        (λ t. refl) (c ∷ s) u refl,
    refl,
  )

  pub conversions_request-Conforms :
      (x : ConversionsCall)
      → Conforms (conversions_request (some (first ∷ tail)) x) (conversions_operation x)
  unfolding conversions_request operations_for fulfils split
  conversions_request-Conforms (conversions_preview b k) = (refl, refl)
  conversions_request-Conforms (conversions_execute b k) = (refl, refl)

  pub corporate_actions_request-Conforms :
      (x : CorporateActionsCall)
      → All IsSegment (corporate_actions_ids x)
      → Conforms (corporate_actions_request (some (first ∷ tail)) x) (corporate_actions_operation x)
  unfolding corporate_actions_request operations_for fulfils split
  corporate_actions_request-Conforms (corporate_actions_create stock_splits b k) _ = (refl, refl)
  corporate_actions_request-Conforms (corporate_actions_create spinoffs b k) _ = (refl, refl)
  corporate_actions_request-Conforms (corporate_actions_create mergers b k) _ = (refl, refl)
  corporate_actions_request-Conforms (corporate_actions_create dividend_reinvestments b k) _ =
      (refl, refl)
  corporate_actions_request-Conforms (corporate_actions_create in_kind_transfers b k) _ =
      (refl, refl)
  corporate_actions_request-Conforms (corporate_actions_remove []) ((e, u), _) =
      absurd (ground arith)
  corporate_actions_request-Conforms (corporate_actions_remove (c ∷ s)) ((_, u), _) = (
    at_end delete (codes "/corporate-actions/") ([] ∷ codes "corporate-actions" ∷ []) (λ t. refl)
        (c ∷ s) u refl,
    refl,
  )

-- ===== src/Http/Routes/Expected/Positions.antt =====
-- The operations of web/src/api/schema.ts that the calls of web/src/api/datasource.ts are for:
-- those on instruments, prices, trades and corporate actions.
use wealthboard.Contract.{Operation}
use wealthboard.Http.Calls.{
  InstrumentsCall, instruments_list, instruments_get, instruments_holdings, instruments_create,
  instruments_update, instruments_set_archived, instruments_remove, PricesCall, prices_upsert,
  prices_remove, PositionEventsCall, position_events_get, position_events_create,
  position_events_update, position_events_remove, ReconciliationsCall, reconciliations_list,
  reconciliations_create, reconciliations_remove, ConversionsCall, conversions_preview,
  conversions_execute, CorporateActionsCall, corporate_actions_create, corporate_actions_remove,
}
use wealthboard.Http.Inputs.{
  stock_splits, spinoffs, mergers, dividend_reinvestments, in_kind_transfers,
}
use wealthboard.Contract.Operations.Accounts.{
  get_account_position_event, list_account_position_reconciliations,
}
use wealthboard.Contract.Operations.Actions.{
  record_stock_split, record_spinoff, record_merger, record_dividend_reinvestment,
  record_in_kind_transfer, delete_corporate_action_group,
}
use wealthboard.Contract.Operations.Instruments.{
  list_instruments, create_instrument, get_instrument, update_instrument, delete_instrument,
  set_instrument_archived, upsert_security_price, delete_security_price,
}
use wealthboard.Contract.Operations.Positions.{
  create_position_event, update_position_event, delete_position_event,
  create_position_reconciliation, delete_position_reconciliation, preview_account_conversion,
  execute_account_conversion,
}
use wealthboard.Contract.Operations.Reports.{get_instrument_holdings}

abbrev pub instruments_operation : InstrumentsCall → Operation
instruments_operation instruments_list = list_instruments
instruments_operation (instruments_get _) = get_instrument
instruments_operation (instruments_holdings _) = get_instrument_holdings
instruments_operation (instruments_create _) = create_instrument
instruments_operation (instruments_update _ _) = update_instrument
instruments_operation (instruments_set_archived _ _) = set_instrument_archived
instruments_operation (instruments_remove _) = delete_instrument

abbrev pub prices_operation : PricesCall → Operation
prices_operation (prices_upsert _ _) = upsert_security_price
prices_operation (prices_remove _) = delete_security_price

abbrev pub position_events_operation : PositionEventsCall → Operation
position_events_operation (position_events_get _ _) = get_account_position_event
position_events_operation (position_events_create _) = create_position_event
position_events_operation (position_events_update _ _) = update_position_event
position_events_operation (position_events_remove _) = delete_position_event

abbrev pub reconciliations_operation : ReconciliationsCall → Operation
reconciliations_operation (reconciliations_list _ _) = list_account_position_reconciliations
reconciliations_operation (reconciliations_create _) = create_position_reconciliation
reconciliations_operation (reconciliations_remove _) = delete_position_reconciliation

abbrev pub conversions_operation : ConversionsCall → Operation
conversions_operation (conversions_preview _ _) = preview_account_conversion
conversions_operation (conversions_execute _ _) = execute_account_conversion

abbrev pub corporate_actions_operation : CorporateActionsCall → Operation
corporate_actions_operation (corporate_actions_create stock_splits _ _) = record_stock_split
corporate_actions_operation (corporate_actions_create spinoffs _ _) = record_spinoff
corporate_actions_operation (corporate_actions_create mergers _ _) = record_merger
corporate_actions_operation (corporate_actions_create dividend_reinvestments _ _) =
    record_dividend_reinvestment
corporate_actions_operation (corporate_actions_create in_kind_transfers _ _) =
    record_in_kind_transfer
corporate_actions_operation (corporate_actions_remove _) = delete_corporate_action_group

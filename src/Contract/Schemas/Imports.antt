-- ===== src/Contract/Schemas/Imports.antt =====
-- web/src/api/schema.ts: the schemas for imports of history, archives and their restoring.
use wealthboard.Contract.{
  Shape, text, number, boolean, null, constant, list_of, one_of, object, required, optional, nil,
  ◌&◌,
}
use wealthboard.Contract.Schemas.Values.{currency_code, decimal_string, positive_decimal_string}

abbrev pub account_history_import_source_row : Shape
account_history_import_source_row = object (
    optional "external_id" (one_of text null)
    & required "type" (
        one_of (constant "deposit") (
          one_of (constant "withdrawal") (
            one_of (constant "interest") (
              one_of (constant "dividend") (
                one_of (constant "capital_gain") (
                  one_of (constant "capital_loss") (
                    one_of (constant "fee") (
                      one_of (constant "purchase") (
                        one_of (constant "sale") (
                          one_of (constant "manual_adjustment") (
                            one_of (constant "liability_payment")
                              (constant "liability_increase"))))))))))))
    & required "amount" decimal_string
    & required "date" text
    & optional "description" (one_of text null)
    & optional "notes" (one_of text null)
    & nil)

abbrev pub account_history_import_envelope : Shape
account_history_import_envelope = object (
    required "format" text
    & required "version" number
    & required "transactions" (list_of account_history_import_source_row)
    & nil)

abbrev pub investment_import_instrument : Shape
investment_import_instrument = object (
    required "external_id" text
    & required "name" text
    & optional "symbol" (one_of text null)
    & required "identifier_type" text
    & optional "identifier" (one_of text null)
    & optional "exchange_mic" (one_of text null)
    & required "asset_type" text
    & required "quote_currency" currency_code
    & nil)

abbrev pub investment_import_event : Shape
investment_import_event = object (
    required "external_id" text
    & required "instrument_external_id" text
    & required "type" text
    & required "quantity" decimal_string
    & optional "unit_price" (one_of text null)
    & required "trade_currency" currency_code
    & optional "fee_amount" (one_of text null)
    & optional "fee_currency" (one_of text null)
    & optional "cash_effect" (one_of text null)
    & optional "applied_exchange_rate" (one_of text null)
    & optional "opening_cost_basis" (one_of text null)
    & optional "event_group_id" (one_of text null)
    & required "trade_date" text
    & optional "settlement_date" (one_of text null)
    & optional "description" (one_of text null)
    & optional "notes" (one_of text null)
    & nil)

abbrev pub investment_import_cash : Shape
investment_import_cash = object (
    optional "external_id" (one_of text null)
    & required "type" text
    & required "amount" decimal_string
    & required "date" text
    & optional "event_group_id" (one_of text null)
    & optional "description" (one_of text null)
    & optional "notes" (one_of text null)
    & nil)

abbrev pub investment_import_price : Shape
investment_import_price = object (
    required "external_id" text
    & required "instrument_external_id" text
    & required "price" positive_decimal_string
    & required "effective_date" text
    & required "source" text
    & optional "provenance" (one_of text null)
    & nil)

abbrev pub investment_history_import_envelope : Shape
investment_history_import_envelope = object (
    required "format" text
    & required "version" number
    & required "instruments" (list_of investment_import_instrument)
    & required "position_events" (list_of investment_import_event)
    & required "cash_transactions" (list_of investment_import_cash)
    & required "prices" (list_of investment_import_price)
    & nil)

abbrev pub import_account : Shape
import_account = object (
    required "id" text
    & required "name" text
    & optional "institution" text
    & required "currency" currency_code
    & nil)

abbrev pub import_date_range : Shape
import_date_range = object (required "from" text & required "to" text & nil)

abbrev pub account_history_import_row : Shape
account_history_import_row = object (
    required "row" number
    & required "externalId" (one_of text null)
    & required "status" text
    & required "code" text
    & required "message" text
    & required "transactionId" (one_of text null)
    & optional "type" text
    & optional "amount" text
    & optional "date" text
    & nil)

abbrev pub account_history_import_summary : Shape
account_history_import_summary = object (
    optional "ready" number
    & optional "imported" number
    & required "skippedDuplicates" number
    & required "failed" number
    & nil)

abbrev pub account_history_import_result : Shape
account_history_import_result = object (
    optional "hash" text
    & required "account" import_account
    & required "dateRange" (one_of import_date_range null)
    & optional "currentBalanceMinor" number
    & optional "projectedBalanceMinor" number
    & optional "finalBalanceMinor" number
    & optional "netChangeMinor" number
    & required "summary" account_history_import_summary
    & required "rows" (list_of account_history_import_row)
    & nil)

abbrev pub investment_import_row : Shape
investment_import_row = object (
    required "collection" text
    & required "row" number
    & required "externalId" (one_of text null)
    & required "status" text
    & required "code" text
    & required "message" text
    & nil)

abbrev pub investment_instrument_change : Shape
investment_instrument_change = object (
    required "instrumentId" text
    & required "externalId" text
    & required "name" text
    & required "symbol" (one_of text null)
    & required "resolution" text
    & required "currentQuantity" decimal_string
    & required "projectedQuantity" decimal_string
    & required "quantityChange" decimal_string
    & nil)

abbrev pub investment_event_change : Shape
investment_event_change = object (
    required "externalId" text
    & required "instrumentId" text
    & required "type" text
    & required "tradeDate" text
    & required "eventSequence" number
    & required "beforeQuantity" decimal_string
    & required "afterQuantity" decimal_string
    & nil)

abbrev pub investment_price_change : Shape
investment_price_change = object (
    required "externalId" text
    & required "instrumentId" text
    & required "price" decimal_string
    & required "currency" currency_code
    & required "source" text
    & required "affectedFrom" text
    & nil)

abbrev pub investment_import_value : Shape
investment_import_value = object (
    required "cashMinor" number
    & required "positionsMinor" number
    & required "totalMinor" number
    & required "complete" boolean
    & required "missingPrices" (list_of text)
    & required "missingCurrencies" (list_of currency_code)
    & nil)

abbrev pub investment_import_summary : Shape
investment_import_summary = object (
    required "records" number
    & optional "ready" number
    & optional "imported" number
    & required "skippedDuplicates" number
    & required "failed" number
    & nil)

abbrev pub investment_history_import_result : Shape
investment_history_import_result = object (
    optional "hash" text
    & required "account" import_account
    & required "current" investment_import_value
    & required "projected" investment_import_value
    & optional "finalBalanceMinor" number
    & required "netChangeMinor" number
    & required "dateRange" (one_of import_date_range null)
    & required "instrumentChanges" (list_of investment_instrument_change)
    & required "eventChanges" (list_of investment_event_change)
    & required "priceChanges" (list_of investment_price_change)
    & required "summary" investment_import_summary
    & required "canCommit" boolean
    & required "rows" (list_of investment_import_row)
    & nil)

abbrev pub portable_record : Shape
portable_record = object nil

abbrev pub user_archive : Shape
user_archive = object (
    required "format" (constant "wealthboard-user-json")
    & required "version" number
    & required "exportedAt" text
    & required "settings" (object nil)
    & required "categories" (list_of portable_record)
    & required "institutions" (list_of portable_record)
    & required "accounts" (list_of portable_record)
    & required "transactions" (list_of portable_record)
    & required "valuations" (list_of portable_record)
    & required "exchangeRates" (list_of portable_record)
    & required "goals" (list_of portable_record)
    & required "goalContributionPlans" (list_of portable_record)
    & required "goalMilestones" (list_of portable_record)
    & required "goalAlertDismissals" (list_of portable_record)
    & required "beneficiaries" (list_of portable_record)
    & required "estatePlans" (list_of portable_record)
    & required "estateAccountDirectives" (list_of portable_record)
    & required "estateAllocations" (list_of portable_record)
    & required "estateResiduaryAllocations" (list_of portable_record)
    & required "estatePlanSnapshots" (list_of portable_record)
    & required "investmentInstruments" (list_of portable_record)
    & required "positionEvents" (list_of portable_record)
    & required "securityPrices" (list_of portable_record)
    & required "positionReconciliations" (list_of portable_record)
    & required "accountConversions" (list_of portable_record)
    & nil)

abbrev pub restore_summary : Shape
restore_summary = object (
    required "institutions" number
    & required "accounts" number
    & required "transactions" number
    & required "goals" number
    & required "milestones" number
    & required "beneficiaries" number
    & required "estatePlans" number
    & required "estateSnapshots" number
    & required "investmentInstruments" number
    & required "positionEvents" number
    & required "securityPrices" number
    & required "positionReconciliations" number
    & nil)

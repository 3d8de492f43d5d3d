-- ===== src/Contract/Schemas/Actions.antt =====
-- web/src/api/schema.ts: the schemas for corporate actions.
use wealthboard.Contract.{Shape, text, object, required, optional, nil, ◌&◌}
use wealthboard.Contract.Schemas.Values.{
  currency_code, decimal_string, non_negative_decimal_string, positive_decimal_string,
}

abbrev pub event_group_response : Shape
event_group_response = object (required "eventGroupId" text & nil)

abbrev pub stock_split_request : Shape
stock_split_request = object (
    required "accountId" text
    & required "instrumentId" text
    & required "numerator" positive_decimal_string
    & required "denominator" positive_decimal_string
    & required "actionDate" text
    & optional "idempotencyKey" text
    & optional "notes" text
    & nil)

abbrev pub spinoff_request : Shape
spinoff_request = object (
    required "accountId" text
    & required "sourceInstrumentId" text
    & required "newInstrumentId" text
    & required "numerator" positive_decimal_string
    & required "denominator" positive_decimal_string
    & required "actionDate" text
    & optional "idempotencyKey" text
    & optional "notes" text
    & nil)

abbrev pub merger_request : Shape
merger_request = object (
    required "accountId" text
    & required "sourceInstrumentId" text
    & required "destinationInstrumentId" text
    & required "numerator" positive_decimal_string
    & required "denominator" positive_decimal_string
    & required "actionDate" text
    & optional "idempotencyKey" text
    & optional "notes" text
    & nil)

abbrev pub dividend_reinvestment_request : Shape
dividend_reinvestment_request = object (
    required "accountId" text
    & required "instrumentId" text
    & required "dividendAmount" positive_decimal_string
    & required "quantity" positive_decimal_string
    & required "unitPrice" positive_decimal_string
    & required "tradeCurrency" currency_code
    & optional "feeAmount" non_negative_decimal_string
    & optional "feeCurrency" currency_code
    & optional "cashEffect" decimal_string
    & optional "appliedExchangeRate" positive_decimal_string
    & required "activityDate" text
    & optional "idempotencyKey" text
    & optional "notes" text
    & nil)

abbrev pub in_kind_transfer_request : Shape
in_kind_transfer_request = object (
    required "sourceAccountId" text
    & required "destinationAccountId" text
    & required "instrumentId" text
    & required "quantity" positive_decimal_string
    & required "transferDate" text
    & optional "feeAmount" non_negative_decimal_string
    & optional "idempotencyKey" text
    & optional "notes" text
    & nil)

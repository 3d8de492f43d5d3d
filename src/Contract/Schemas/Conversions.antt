-- ===== src/Contract/Schemas/Conversions.antt =====
-- web/src/api/schema.ts: the schemas for account conversions.
use wealthboard.Contract.{
  Shape, text, boolean, null, list_of, one_of, object, required, optional, nil, ◌&◌,
}
use wealthboard.Contract.Schemas.Values.{
  currency_code, decimal_string, minor_units, non_negative_decimal_string, positive_decimal_string,
}

abbrev pub account_conversion_holding_request : Shape
account_conversion_holding_request = object (
    required "instrumentId" text
    & required "quantity" positive_decimal_string
    & required "price" positive_decimal_string
    & optional "openingCostBasis" non_negative_decimal_string
    & required "priceSource" text
    & optional "priceProvenance" text
    & nil)

abbrev pub account_conversion_request : Shape
account_conversion_request = object (
    required "sourceAccountId" text
    & required "targetName" text
    & required "conversionDate" text
    & required "openingCash" non_negative_decimal_string
    & required "holdings" (list_of account_conversion_holding_request)
    & optional "idempotencyKey" (one_of text null)
    & optional "confirmDifference" boolean
    & nil)

abbrev pub account_conversion_holding_preview : Shape
account_conversion_holding_preview = object (
    required "instrumentId" text
    & required "name" text
    & required "symbol" (one_of text null)
    & required "quantity" decimal_string
    & required "price" decimal_string
    & required "quoteCurrency" currency_code
    & nil)

abbrev pub account_conversion_preview : Shape
account_conversion_preview = object (
    required "sourceAccountId" text
    & required "sourceAccountName" text
    & required "currency" currency_code
    & required "conversionDate" text
    & required "sourceBalanceMinor" minor_units
    & required "openingCashMinor" minor_units
    & required "positionsMinor" minor_units
    & required "projectedTotalMinor" minor_units
    & required "differenceMinor" minor_units
    & required "holdings" (list_of account_conversion_holding_preview)
    & nil)

abbrev pub account_conversion_result : Shape
account_conversion_result =
    object (required "targetAccountId" text & required "replayed" boolean & nil)

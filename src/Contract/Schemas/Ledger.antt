-- ===== src/Contract/Schemas/Ledger.antt =====
-- web/src/api/schema.ts: the schemas for categories, accounts and the pages of their records.
use wealthboard.Contract.{
  Shape, text, number, boolean, null, constant, list_of, one_of, object, required, optional, nil,
  ◌&◌,
}
use wealthboard.Contract.Schemas.Values.{
  currency_code, decimal_string, minor_units, positive_decimal_string,
}

abbrev pub transaction_type : Shape
transaction_type = one_of (constant "opening_balance") (
    one_of (constant "deposit") (
      one_of (constant "withdrawal") (
        one_of (constant "interest") (
          one_of (constant "dividend") (
            one_of (constant "capital_gain") (
              one_of (constant "capital_loss") (
                one_of (constant "fee") (
                  one_of (constant "purchase") (
                    one_of (constant "sale") (
                      one_of (constant "manual_adjustment") (
                        one_of (constant "liability_payment")
                          (one_of (constant "liability_increase") (constant "transfer")))))))))))))

abbrev pub category : Shape
category = object (
    required "id" text
    & required "name" text
    & required "slug" text
    & required "icon" text
    & required "displayOrder" number
    & required "assetOrLiability" text
    & optional "description" text
    & required "isLiquid" boolean
    & required "isInvestible" boolean
    & required "isArchived" boolean
    & required "isSystem" boolean
    & nil)

abbrev pub institution : Shape
institution = object (
    required "id" text
    & required "name" text
    & required "type" text
    & optional "websiteUrl" text
    & optional "countryCode" text
    & optional "address" text
    & optional "notes" text
    & optional "archivedAt" text
    & nil)

abbrev pub account : Shape
account = object (
    required "id" text
    & required "categoryId" text
    & optional "institutionId" text
    & required "name" text
    & optional "description" text
    & required "currency" text
    & required "trackingMode" text
    & required "currentValueMinor" minor_units
    & required "convertedValueMinor" (one_of minor_units null)
    & required "monthlyChangeMinor" (one_of minor_units null)
    & optional "costBasisMinor" minor_units
    & required "isLiability" boolean
    & required "isIncludedInNetWorth" boolean
    & required "categoryName" text
    & optional "institutionName" text
    & optional "accountReference" text
    & optional "notes" text
    & optional "openedAt" text
    & optional "archivedAt" text
    & nil)

abbrev pub transaction : Shape
transaction = object (
    required "id" text
    & required "accountId" text
    & required "accountName" text
    & required "type" transaction_type
    & required "amountMinor" minor_units
    & required "currency" text
    & required "transactionDate" text
    & optional "description" text
    & optional "notes" text
    & optional "externalId" text
    & optional "transferGroupId" text
    & optional "eventGroupId" text
    & nil)

abbrev pub valuation : Shape
valuation = object (
    required "id" text
    & required "accountId" text
    & required "accountName" text
    & required "valueMinor" minor_units
    & required "currency" text
    & required "valuationDate" text
    & optional "notes" text
    & nil)

abbrev pub activity_item : Shape
activity_item = object (
    required "kind" (
      one_of (constant "transaction")
        (one_of (constant "valuation") (one_of (constant "position") (constant "price"))))
    & required "id" text
    & required "accountId" text
    & required "accountName" text
    & required "type" text
    & required "amountMinor" minor_units
    & required "currency" text
    & required "date" text
    & optional "description" text
    & optional "notes" text
    & optional "instrumentId" text
    & optional "instrumentName" text
    & optional "instrumentSymbol" text
    & optional "quantity" decimal_string
    & optional "unitPrice" decimal_string
    & optional "eventGroupId" text
    & optional "effectMinor" minor_units
    & nil)

abbrev pub transaction_page : Shape
transaction_page = object (
    required "items" (list_of transaction)
    & required "limit" number
    & required "offset" number
    & required "hasMore" boolean
    & nil)

abbrev pub valuation_page : Shape
valuation_page = object (
    required "items" (list_of valuation)
    & required "limit" number
    & required "offset" number
    & required "hasMore" boolean
    & nil)

abbrev pub activity_page : Shape
activity_page = object (
    required "items" (list_of activity_item)
    & required "limit" number
    & required "offset" number
    & required "hasMore" boolean
    & nil)

abbrev pub position_event : Shape
position_event = object (
    required "id" text
    & required "accountId" text
    & required "instrumentId" text
    & optional "relatedInstrumentId" text
    & required "type" (
        one_of (constant "opening_position") (
          one_of (constant "buy") (
            one_of (constant "sell") (
              one_of (constant "quantity_adjustment") (
                one_of (constant "transfer_in") (
                  one_of (constant "transfer_out") (
                    one_of (constant "split") (
                      one_of (constant "spinoff")
                        (one_of (constant "merger_in") (constant "merger_out"))))))))))
    & required "quantity" decimal_string
    & optional "unitPrice" positive_decimal_string
    & required "tradeCurrency" currency_code
    & optional "feeAmountMinor" minor_units
    & optional "feeCurrency" currency_code
    & required "cashEffectMinor" minor_units
    & optional "appliedExchangeRate" positive_decimal_string
    & optional "openingCostBasisMinor" minor_units
    & optional "actionRatioNumerator" positive_decimal_string
    & optional "actionRatioDenominator" positive_decimal_string
    & required "tradeDate" text
    & required "eventSequence" number
    & optional "settlementDate" text
    & optional "externalId" text
    & optional "eventGroupId" text
    & optional "description" text
    & optional "notes" text
    & required "createdAt" text
    & required "updatedAt" text
    & nil)

abbrev pub position_event_page : Shape
position_event_page = object (
    required "items" (list_of position_event)
    & required "limit" number
    & required "offset" number
    & required "hasMore" boolean
    & nil)

abbrev pub position_reconciliation : Shape
position_reconciliation = object (
    required "id" text
    & required "accountId" text
    & required "observationDate" text
    & optional "reportedCashMinor" minor_units
    & required "reportedTotalMinor" minor_units
    & optional "notes" text
    & required "createdAt" text
    & required "updatedAt" text
    & nil)

abbrev pub position_reconciliation_page : Shape
position_reconciliation_page = object (
    required "items" (list_of position_reconciliation)
    & required "limit" number
    & required "offset" number
    & required "hasMore" boolean
    & nil)

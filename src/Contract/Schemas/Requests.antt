-- ===== src/Contract/Schemas/Requests.antt =====
-- web/src/api/schema.ts: the schemas for the bodies of the mutations of the ledger.
use wealthboard.Contract.{
  Shape, text, number, boolean, null, unknown, constant, list_of, one_of, all_of, object, required,
  optional, nil, ◌&◌,
}
use wealthboard.Contract.Schemas.Values.{
  currency_code, decimal_string, minor_units, non_negative_decimal_string, positive_decimal_string,
}

abbrev pub resource_id_response : Shape
resource_id_response = object (required "id" text & nil)

abbrev pub mutation_status_response : Shape
mutation_status_response = object (required "status" text & nil)

abbrev pub settings_mutation_request : Shape
settings_mutation_request = object (
    required "displayName" text
    & required "appName" text
    & required "baseCurrency" currency_code
    & optional "supportedCurrencies" (list_of currency_code)
    & required "timezone" text
    & required "preferredDateFormat" (
        one_of (constant "dd MMM yyyy")
          (one_of (constant "dd/MM/yyyy") (one_of (constant "MM/dd/yyyy") (constant "yyyy-MM-dd"))))
    & required "defaultDashboardPeriod" (
        one_of (constant "1m") (
          one_of (constant "3m")
            (one_of (constant "6m") (one_of (constant "1y") (constant "all")))))
    & required "sessionTimeoutMinutes" number
    & optional "defaultGoalReturnBps" number
    & required "positionStaleDaysStock" number
    & required "positionStaleDaysEtf" number
    & required "positionStaleDaysFund" number
    & nil)

abbrev pub category_mutation_request : Shape
category_mutation_request = object (
    required "name" text
    & required "icon" text
    & required "assetOrLiability" (one_of (constant "asset") (constant "liability"))
    & optional "description" text
    & optional "isLiquid" boolean
    & optional "isInvestible" boolean
    & nil)

abbrev pub institution_mutation_request : Shape
institution_mutation_request = object (
    required "name" text
    & required "type" (
        one_of (constant "bank") (
          one_of (constant "credit_union") (
            one_of (constant "brokerage") (
              one_of (constant "asset_manager") (
                one_of (constant "pension_provider") (
                  one_of (constant "insurer") (
                    one_of (constant "lender") (
                      one_of (constant "digital_wallet") (
                        one_of (constant "government")
                          (one_of (constant "employer") (constant "other")))))))))))
    & optional "websiteUrl" text
    & optional "countryCode" text
    & optional "address" text
    & optional "notes" text
    & nil)

abbrev pub exchange_rate_mutation_request : Shape
exchange_rate_mutation_request = object (
    required "baseCurrency" currency_code
    & required "quoteCurrency" currency_code
    & required "rate" positive_decimal_string
    & required "effectiveDate" text
    & nil)

abbrev pub archive_mutation_request : Shape
archive_mutation_request = object (optional "archived" boolean & nil)

abbrev pub required_archive_mutation_request : Shape
required_archive_mutation_request = object (required "archived" boolean & nil)

abbrev pub category_reorder_request : Shape
category_reorder_request =
    object (required "direction" (one_of (constant "up") (constant "down")) & nil)

abbrev pub account_create_request : Shape
account_create_request = object (
    required "idempotencyKey" text
    & required "name" text
    & optional "description" text
    & required "categoryId" text
    & optional "institutionId" (one_of text null)
    & optional "accountReference" text
    & required "currency" currency_code
    & required "trackingMode" (one_of (constant "balance") (constant "positions"))
    & required "openingValueMinor" (all_of minor_units unknown)
    & optional "costBasisMinor" (one_of minor_units null)
    & optional "isIncludedInNetWorth" boolean
    & optional "notes" text
    & optional "openedAt" (one_of text null)
    & nil)

abbrev pub account_update_request : Shape
account_update_request = object (
    optional "idempotencyKey" text
    & required "name" text
    & optional "description" text
    & required "categoryId" text
    & optional "institutionId" (one_of text null)
    & optional "accountReference" text
    & required "currency" currency_code
    & optional "trackingMode" (one_of (constant "balance") (constant "positions"))
    & optional "openingValueMinor" minor_units
    & optional "costBasisMinor" (one_of minor_units null)
    & optional "isIncludedInNetWorth" boolean
    & optional "notes" text
    & optional "openedAt" (one_of text null)
    & nil)

abbrev pub account_delete_request : Shape
account_delete_request = object (required "confirmationName" text & nil)

abbrev pub mutable_transaction_type : Shape
mutable_transaction_type = one_of (constant "deposit") (
    one_of (constant "withdrawal") (
      one_of (constant "interest") (
        one_of (constant "dividend") (
          one_of (constant "capital_gain") (
            one_of (constant "capital_loss") (
              one_of (constant "fee") (
                one_of (constant "purchase") (
                  one_of (constant "sale") (
                    one_of (constant "manual_adjustment") (
                      one_of (constant "liability_payment")
                        (constant "liability_increase")))))))))))

abbrev pub transaction_create_request : Shape
transaction_create_request = object (
    required "idempotencyKey" text
    & required "accountId" text
    & required "type" mutable_transaction_type
    & required "amountMinor" minor_units
    & required "transactionDate" text
    & optional "description" text
    & optional "externalId" text
    & optional "notes" text
    & nil)

abbrev pub transaction_update_request : Shape
transaction_update_request = object (
    optional "idempotencyKey" text
    & optional "accountId" text
    & required "type" mutable_transaction_type
    & required "amountMinor" minor_units
    & required "transactionDate" text
    & optional "description" text
    & optional "externalId" text
    & optional "notes" text
    & nil)

abbrev pub valuation_create_request : Shape
valuation_create_request = object (
    required "idempotencyKey" text
    & required "accountId" text
    & required "valueMinor" (all_of minor_units unknown)
    & required "valuationDate" text
    & optional "notes" text
    & nil)

abbrev pub transfer_create_request : Shape
transfer_create_request = object (
    required "idempotencyKey" text
    & required "fromAccountId" text
    & required "toAccountId" text
    & required "sourceAmountMinor" (all_of minor_units unknown)
    & optional "destinationAmountMinor" minor_units
    & required "transactionDate" text
    & optional "description" text
    & nil)

abbrev pub goal_mutation_request : Shape
goal_mutation_request = object (
    optional "idempotencyKey" (one_of text null)
    & required "name" text
    & optional "description" (one_of text null)
    & required "targetAmount" positive_decimal_string
    & optional "currentAmount" non_negative_decimal_string
    & required "currency" currency_code
    & required "targetDate" text
    & optional "linkedAccountId" (one_of text null)
    & required "icon" text
    & required "status" (
        one_of (constant "active")
          (one_of (constant "paused") (one_of (constant "completed") (constant "cancelled"))))
    & optional "priority" number
    & required "assumedAnnualReturn" number
    & required "plannedContribution" non_negative_decimal_string
    & required "frequency" (
        one_of (constant "weekly") (
          one_of (constant "monthly")
            (one_of (constant "quarterly") (one_of (constant "annually") (constant "custom")))))
    & required "planStartDate" text
    & optional "planEndDate" text
    & nil)

abbrev pub goal_mutation_result : Shape
goal_mutation_result = object (required "id" text & required "replayed" boolean & nil)

abbrev pub goal_status_request : Shape
goal_status_request = object (
    required "status" (
      one_of (constant "active")
        (one_of (constant "paused") (one_of (constant "completed") (constant "cancelled"))))
    & nil)

abbrev pub goal_milestone_create_request : Shape
goal_milestone_create_request = object (
    required "name" text
    & required "targetAmount" positive_decimal_string
    & optional "targetDate" text
    & nil)

abbrev pub instrument_mutation_request : Shape
instrument_mutation_request = object (
    optional "externalId" text
    & required "name" text
    & optional "symbol" text
    & required "identifierType"
        (one_of (constant "isin") (one_of (constant "ticker_exchange") (constant "custom")))
    & optional "identifier" text
    & optional "exchangeMic" text
    & required "assetType" (one_of (constant "stock") (one_of (constant "etf") (constant "fund")))
    & required "quoteCurrency" currency_code
    & nil)

abbrev pub security_price_mutation_request : Shape
security_price_mutation_request = object (
    required "instrumentId" text
    & optional "externalId" text
    & required "price" positive_decimal_string
    & required "effectiveDate" text
    & required "source" text
    & optional "provenance" text
    & nil)

abbrev pub position_event_create_request : Shape
position_event_create_request = object (
    required "accountId" text
    & required "instrumentId" text
    & required "type" (
        one_of (constant "opening_position")
          (one_of (constant "buy") (one_of (constant "sell") (constant "quantity_adjustment"))))
    & required "quantity" decimal_string
    & optional "unitPrice" positive_decimal_string
    & optional "tradeCurrency" currency_code
    & optional "feeAmount" non_negative_decimal_string
    & optional "feeCurrency" currency_code
    & optional "cashEffect" positive_decimal_string
    & optional "appliedExchangeRate" positive_decimal_string
    & optional "openingCostBasis" non_negative_decimal_string
    & required "tradeDate" text
    & optional "settlementDate" text
    & optional "externalId" text
    & required "idempotencyKey" text
    & optional "description" text
    & optional "notes" text
    & nil)

abbrev pub position_event_update_request : Shape
position_event_update_request = object (
    required "accountId" text
    & required "instrumentId" text
    & required "type" (
        one_of (constant "opening_position")
          (one_of (constant "buy") (one_of (constant "sell") (constant "quantity_adjustment"))))
    & required "quantity" decimal_string
    & optional "unitPrice" positive_decimal_string
    & optional "tradeCurrency" currency_code
    & optional "feeAmount" non_negative_decimal_string
    & optional "feeCurrency" currency_code
    & optional "cashEffect" positive_decimal_string
    & optional "appliedExchangeRate" positive_decimal_string
    & optional "openingCostBasis" non_negative_decimal_string
    & required "tradeDate" text
    & optional "settlementDate" text
    & optional "externalId" text
    & optional "idempotencyKey" text
    & optional "description" text
    & optional "notes" text
    & nil)

abbrev pub position_reconciliation_create_request : Shape
position_reconciliation_create_request = object (
    required "accountId" text
    & required "observationDate" text
    & optional "reportedCash" decimal_string
    & required "reportedTotal" decimal_string
    & optional "notes" text
    & nil)

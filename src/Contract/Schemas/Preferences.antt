-- ===== src/Contract/Schemas/Preferences.antt =====
-- web/src/api/schema.ts: the schemas for settings, exchange rates and instruments.
use wealthboard.Contract.{
  Shape, text, number, boolean, null, list_of, one_of, object, required, nil, ◌&◌,
}
use wealthboard.Contract.Schemas.Values.{decimal_string}

abbrev pub user_settings : Shape
user_settings = object (
    required "displayName" text
    & required "appName" text
    & required "baseCurrency" text
    & required "supportedCurrencies" (list_of text)
    & required "timezone" text
    & required "preferredDateFormat" text
    & required "defaultDashboardPeriod" text
    & required "sessionTimeoutMinutes" number
    & required "defaultGoalReturnBps" number
    & required "positionStaleDaysStock" number
    & required "positionStaleDaysEtf" number
    & required "positionStaleDaysFund" number
    & required "createdAt" text
    & required "updatedAt" text
    & nil)

abbrev pub currency_configuration : Shape
currency_configuration = object (
    required "baseCurrency" text
    & required "enabledCurrencies" (list_of text)
    & required "referencedCurrencies" (list_of text)
    & nil)

abbrev pub exchange_rate : Shape
exchange_rate = object (
    required "id" text
    & required "baseCurrency" text
    & required "quoteCurrency" text
    & required "rate" decimal_string
    & required "effectiveDate" text
    & required "source" text
    & required "createdAt" text
    & nil)

abbrev pub oidc_identity : Shape
oidc_identity = object (
    required "id" text
    & required "issuer" text
    & required "createdAt" text
    & required "updatedAt" text
    & required "lastLoginAt" text
    & nil)

abbrev pub auth_method_state : Shape
auth_method_state = object (
    required "status" text
    & required "hasPassword" boolean
    & required "oidcIdentities" (list_of oidc_identity)
    & nil)

abbrev pub settings_read : Shape
settings_read = object (
    required "settings" user_settings
    & required "currencyConfiguration" currency_configuration
    & required "exchangeRates" (list_of exchange_rate)
    & required "authMethods" auth_method_state
    & nil)

abbrev pub security_price : Shape
security_price = object (
    required "id" text
    & required "externalId" (one_of text null)
    & required "price" decimal_string
    & required "currency" text
    & required "effectiveDate" text
    & required "source" text
    & required "provenance" (one_of text null)
    & required "createdAt" text
    & required "updatedAt" text
    & nil)

abbrev pub instrument : Shape
instrument = object (
    required "id" text
    & required "externalId" (one_of text null)
    & required "name" text
    & required "symbol" (one_of text null)
    & required "identifierType" text
    & required "identifier" (one_of text null)
    & required "exchangeMic" (one_of text null)
    & required "assetType" text
    & required "quoteCurrency" text
    & required "archivedAt" (one_of text null)
    & required "createdAt" text
    & required "updatedAt" text
    & required "latestPrice" (one_of security_price null)
    & nil)

abbrev pub instrument_detail : Shape
instrument_detail =
    object (required "instrument" instrument & required "prices" (list_of security_price) & nil)

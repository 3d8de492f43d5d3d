-- ===== src/Contract/Schemas/Values.antt =====
-- web/src/api/schema.ts: the schemas for the sign-in configuration, the overview and the texts for amounts.
use wealthboard.Contract.{
  Shape, text, number, boolean, list_of, object, required, optional, nil, ◌&◌,
}

abbrev pub auth_config : Shape
auth_config = object (
    required "localEnabled" boolean
    & required "oidcEnabled" boolean
    & required "providerName" text
    & nil)

abbrev pub overview : Shape
overview = object (
    required "settings" (
      object (
        required "displayName" text
        & required "appName" text
        & required "baseCurrency" text
        & required "timezone" text
        & required "preferredDateFormat" text
        & required "defaultDashboardPeriod" text
        & nil))
    & required "totals" (
        object (
          required "assets" text
          & required "liabilities" text
          & required "netWorth" text
          & required "liquid" text
          & required "investible" text
          & nil))
    & required "accounts" (
        list_of (
          object (
            required "id" text
            & required "name" text
            & required "currency" text
            & required "currentValueMinor" text
            & required "isLiability" boolean
            & required "isIncludedInNetWorth" boolean
            & required "categoryName" text
            & optional "institutionName" text
            & nil)))
    & required "accountCount" number
    & required "goalCount" number
    & required "currentComplete" boolean
    & required "missingCurrencies" (list_of text)
    & nil)

abbrev pub minor_units : Shape
minor_units = text

abbrev pub decimal_string : Shape
decimal_string = text

abbrev pub non_negative_decimal_string : Shape
non_negative_decimal_string = text

abbrev pub positive_decimal_string : Shape
positive_decimal_string = text

abbrev pub currency_code : Shape
currency_code = text

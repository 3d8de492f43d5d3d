-- ===== src/Contract/Paths.antt =====
-- web/src/api/schema.ts: the interface `paths`, whose keys stand in the order of the file.
pub mod Books
pub mod Figures
pub mod Personal
use wealthboard.Base.{List, ◌++◌}
use wealthboard.Contract.{PathItem}
use wealthboard.Contract.Paths.Books.{
  auth_paths, categories_paths, institutions_paths, accounts_paths, further_accounts_paths,
  valuations_paths, goals_paths,
}
use wealthboard.Contract.Paths.Figures.{
  dashboard_paths, other_accounts_paths, reports_paths, instruments_paths, security_prices_paths,
  position_reconciliations_paths, corporate_actions_paths,
}
use wealthboard.Contract.Paths.Personal.{
  last_accounts_paths, exports_paths, estate_paths, further_estate_paths, api_keys_paths,
  oauth_paths, further_auth_paths, other_auth_paths,
}

abbrev pub paths : List PathItem
paths =
    auth_paths ++ categories_paths ++ institutions_paths ++ accounts_paths ++ further_accounts_paths
    ++ valuations_paths ++ goals_paths ++ dashboard_paths ++ other_accounts_paths ++ reports_paths
    ++ instruments_paths ++ security_prices_paths ++ position_reconciliations_paths
    ++ corporate_actions_paths ++ last_accounts_paths ++ exports_paths ++ estate_paths
    ++ further_estate_paths ++ api_keys_paths ++ oauth_paths ++ further_auth_paths
    ++ other_auth_paths

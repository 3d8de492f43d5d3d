-- ===== src/Contract/Schemas.antt =====
-- web/src/api/schema.ts: `components["schemas"]`, in the order of the file.
pub mod Values
pub mod Actions
pub mod Imports
pub mod Requests
pub mod Conversions
pub mod Ledger
pub mod Plans
pub mod Reports
pub mod Insights
pub mod Preferences
pub mod Wills
pub mod Access

-- ===== src/Contract/Operations.antt =====
-- web/src/api/schema.ts: the interface `operations`, in the order of the file.
pub mod Catalogue
pub mod Accounts
pub mod Ledger
pub mod Plans
pub mod Reports
pub mod Instruments
pub mod Positions
pub mod Actions
pub mod Imports
pub mod Wills
pub mod Snapshots
pub mod Access
pub mod Sessions

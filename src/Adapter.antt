-- ===== src/Adapter.antt =====
-- web/src/api/mock/adapter.ts: the writes of the mock data source to a user's world. A handler takes
-- the engine that `write` hands to it, which holds the world and today's date, and returns the world
-- that it leaves, or throws before it has changed anything.
pub mod Entries
pub mod Accounts
pub mod Trades
pub mod Prices
pub mod Catalogue
pub mod Goals
pub mod Pages
pub mod Wills
pub mod Shares
pub mod Backend
pub mod Found
pub mod Transfer
pub mod Withdrawal
pub mod Undo
pub mod Recorded
pub mod Paging
pub mod Leaves
pub mod Refers
pub mod Placement
pub mod Integrity
pub mod Versions
pub mod Cache
pub mod Gate
pub mod Replays

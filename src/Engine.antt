-- ===== src/Engine.antt =====
-- web/src/api/mock/engine.ts: the read models that are derived from a world. An engine is its world
-- and the current date; each child models one group of its methods.
pub mod Ledgers
pub mod Lookup
pub mod Values
pub mod Totals
pub mod Flows
pub mod Order
pub mod Cash
pub mod Replay
pub mod Quotes
pub mod Periods
pub mod Worth

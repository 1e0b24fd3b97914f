-- ===== src/Frame.antt =====
-- Which transactions leave which tables alone: a predicate that reads other tables is kept.
pub mod Items
pub mod Orders

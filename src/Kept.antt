-- ===== src/Kept.antt =====
-- For each handler, the properties of the database that are kept when its changes to the tables
-- keep them.
pub mod Basics
pub mod Confirm
pub mod Pay
pub mod Reconcile
pub mod Webhook
pub mod Cancel
pub mod Sweep
pub mod Create

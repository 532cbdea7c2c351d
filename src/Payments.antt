-- ===== src/Payments.antt =====
-- app/routers/payments.py.
pub mod Changes
pub mod Confirm
pub mod Pay
pub mod Webhook
pub mod Requests
pub mod Cancel
pub mod Repeats
pub mod Invoices

-- ===== src/Payments.antt =====
-- backend/apps/payments and backend/apps/orders/payment_services.py: the providers, the calls that
-- start and confirm a payment, and the Stripe webhook.
pub mod Process
pub mod Providers
pub mod Prepare
pub mod PreparePay
pub mod Attempt
pub mod Pay
pub mod Webhooks
pub mod References
pub mod Parse

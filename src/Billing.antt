-- ===== src/Billing.antt =====
-- src/gateway/domain/billing.py: what is sold, what is owed, and what was spent.
pub mod Errors
pub mod Money
pub mod Pricing
pub mod Ledger
pub mod Products
pub mod Catalog
pub mod Subscription
pub mod Invoice
pub mod Settlement
pub mod Agent
pub mod Rendering
mod Tests

-- ===== src/Service.antt =====
-- src/gateway/application/billing_service.py: selling tokens, granting them, and taking them away.
pub mod World
pub mod Accounts
pub mod Periods
pub mod Sales
pub mod Views
pub mod Subscribing
pub mod Keeps
pub mod Soundness
pub mod Conserves
pub mod Reachable
pub mod Exactness
mod Mirror
mod Undelivered
mod Tests

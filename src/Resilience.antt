-- ===== src/Resilience.antt =====
-- Calls of the downstream services: the chain that balances, retries and breaks. The services are a
-- parameter; what a call gives is a `Reply`.
mod Tests
pub mod Upstream
pub mod Breaker
pub mod Retry
pub mod Balancer
pub mod Chain

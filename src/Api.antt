-- ===== src/Api.antt =====
-- src/gateway/api: what a request of the gateway's own API becomes, and how its answers are put together.
pub mod Errors
pub mod Requests
pub mod Answers
pub mod Routes
mod Tests

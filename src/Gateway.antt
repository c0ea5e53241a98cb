-- ===== src/Gateway.antt =====
-- The gateway.
pub mod Auth
pub mod Calls
pub mod Visits
pub mod Sessions
pub mod Answers

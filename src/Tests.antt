-- ===== src/Tests.antt =====
-- Tests: the theorems at concrete data.
mod Stock
mod Orders
mod Errors
mod Payments
mod Toys
mod Users
mod Cache
mod Broker
mod Gateway
mod Messaging
mod Checkout

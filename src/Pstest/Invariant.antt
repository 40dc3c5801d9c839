-- ===== src/Pstest/Invariant.antt =====
-- What holds of the maps and objects of the server between two calls
-- (gcpapi/pubsub/pstest/fake.go).
pub mod Registry
pub mod RegistryCalls
pub mod Inbox
pub mod Ledger
pub mod Messages
pub mod Publish
pub mod Calls
pub mod SubscriptionCalls
pub mod Serving
pub mod Events

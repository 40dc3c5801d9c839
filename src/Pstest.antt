-- ===== src/Pstest.antt =====
-- gcpapi/pubsub/pstest/fake.go.
pub mod Pb
pub mod State
pub mod Reactors
pub mod Topics
pub mod Subscriptions
pub mod Settings
pub mod Publishing
pub mod Delivery
pub mod Seeking
pub mod Streams
pub mod Pulling
pub mod Server
pub mod Leasing
pub mod Publication
pub mod Acknowledgement
pub mod Replay
pub mod Injection
pub mod Lifecycle
pub mod Admission
pub mod Listing
pub mod Updates
pub mod Reconfiguration
pub mod Dispatch
pub mod Failures
pub mod Invariant

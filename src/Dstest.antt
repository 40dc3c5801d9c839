-- ===== src/Dstest.antt =====
-- gcpapi/datastore/dstest: the pool of Datastore emulators that test processes share by way of lock
-- files, and the check of composite indexes. The system calls, HTTP, the codecs and the errors
-- package are a parameter (`Os`).
pub mod Os
pub mod Calls
pub mod Indexes
pub mod Startup
pub mod Locking
pub mod Interleaving
pub mod Paths
pub mod Client
pub mod Scenarios

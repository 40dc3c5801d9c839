-- ===== src/Testutil.antt =====
-- gcpapi/testutil.
pub mod Paging

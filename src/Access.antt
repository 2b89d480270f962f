-- ===== src/Access.antt =====
-- services/platform-api/src/{rbac,auth}: who a request comes from, and what it may do.
pub mod Permissions
pub mod Users
pub mod Accounts
pub mod Login
pub mod Sessions
pub mod Tests

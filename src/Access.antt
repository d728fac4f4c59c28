-- ===== src/Access.antt =====
-- Who may do what: the pure gates of packages/api/src/services.
pub mod KeyScope
pub mod Visibility
pub mod Verification
pub mod Delegation
pub mod Master

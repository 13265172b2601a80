-- ===== src/Runtime.antt =====
-- internal/runtimecfg: the reload lifecycle, the routing of a generation and the binding of
-- historical targets.
pub mod Manager
pub mod Target
pub mod Urls
pub mod Snapshot
pub mod Resolve
pub mod Compile
pub mod Compatibility
pub mod Digest
pub mod Generation
pub mod Totality

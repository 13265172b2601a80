-- ===== src/Config.antt =====
-- internal/config: the decoded configuration, its validation and its canonical order.
pub mod Bundle
pub mod Checks
pub mod Values
pub mod Http
pub mod Sources
pub mod Targets
pub mod Routes
pub mod Tunnels
pub mod Validate
pub mod Priority
pub mod References
pub mod Exposure

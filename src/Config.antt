-- ===== src/Config.antt =====
-- internal/config/config.go
pub mod Fields
pub mod Checks
pub mod Load
pub mod Valid

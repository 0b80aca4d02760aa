-- ===== src/Hybridcommon.antt =====
-- The package internal/hybridcommon, which hybrid1 and hybrid2 share.
pub mod Maps
pub mod Integration
mod Tests

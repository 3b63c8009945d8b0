-- ===== src/Address.antt =====
-- src/modules/roc_address: percent encoding.
pub mod Pct
mod Tests

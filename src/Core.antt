-- ===== src/Core.antt =====
-- src/modules/roc_core: the containers.
pub mod List
mod Tests

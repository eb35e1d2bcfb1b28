-- ===== src/Schemas.antt =====
-- deepCab/schemas: the enums and configurations that the components share.
pub mod Enums
pub mod Settings

-- ===== src/Scim.antt =====
-- workers/shared/scim.ts, a module for each group of its functions.
pub mod IdMaps
pub mod Path
pub mod Namespace
pub mod Http

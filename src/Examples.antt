-- ===== src/Examples.antt =====
-- Concrete runs of the modelled code of workers/shared, on small tables.
pub mod Ledger
pub mod Links
pub mod Tables
pub mod Resources
pub mod Mirrored
pub mod Events
pub mod Deliveries
pub mod Status

-- ===== src/Driver.antt =====
-- The drivers of driver/.
pub mod Input
pub mod Ps2
pub mod Random

-- ===== src/Memory.antt =====
-- The memory management of memory/.
pub mod Physical
pub mod Rounding
pub mod PageMap
pub mod HeapBreak

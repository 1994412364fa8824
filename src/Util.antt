-- ===== src/Util.antt =====
-- The containers of util/.
pub mod Queue
pub mod Stack
pub mod Tree
pub mod MinMax
pub mod Vector

-- ===== src/Runtime.antt =====
-- The runtime of runtime/.
pub mod Unicode

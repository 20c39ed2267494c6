-- ===== src/Pool.antt =====
-- The thread pool and the memory pools (include/pool).
pub mod Memory
pub mod Thread
mod Tests

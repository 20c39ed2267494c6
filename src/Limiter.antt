-- ===== src/Limiter.antt =====
-- Rate limiting: the token bucket that runs inside Redis, the class that calls it, and the
-- fixed-window plugin.
pub mod Bucket
pub mod Script
pub mod Distributed
pub mod Window
mod Tests

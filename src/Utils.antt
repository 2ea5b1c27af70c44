-- ===== src/Utils.antt =====
-- src/utils.rs: the byte stream that a client reads and writes through, and the shared counters.
pub mod Stream
pub mod Stats

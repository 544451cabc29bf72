-- ===== src/Persist.antt =====
-- persist.go: where a client keeps the packets that are under way.
pub mod Strategy
pub mod Mem
pub mod File
pub mod Method

-- ===== src/Packets.antt =====
-- The control packets and how they are written.
pub mod Types
pub mod Writer
pub mod Write
pub mod Clone
pub mod Frame

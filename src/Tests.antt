-- ===== src/Tests.antt =====
-- Concrete runs.
mod Packets
mod Stores
mod Sessions
mod Clients
mod Files
mod Senders
mod Routes
mod Console
mod Version5
mod Dialing

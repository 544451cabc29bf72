-- ===== src/Console.antt =====
-- cmd/libmqtt: the console, a client that is driven by lines of text.
pub mod Words
pub mod Types
pub mod Conn
pub mod Commands

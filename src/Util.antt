-- ===== src/Util.antt =====
-- util.go: byte-level helpers of the codec, and the packet id generator.
pub mod Bytes
pub mod VarInt
pub mod RawProps
pub mod UserData
pub mod IdGenerator
pub mod Names

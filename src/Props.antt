-- ===== src/Props.antt =====
-- libmqtt.go, `propertySet`, and the properties of each packet type.
pub mod Defs
pub mod Conn
pub mod Pub
pub mod Sub
pub mod Total
pub mod Drops

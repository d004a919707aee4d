-- ===== src/Wire.antt =====
-- crates/ironwood/src/wire.rs: the wire protocol, one child for each part of the file.
pub mod Uvarint
pub mod Path
pub mod Reader
pub mod Message
pub mod Frame
pub mod Bloom

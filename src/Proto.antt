-- ===== src/Proto.antt =====
-- src/proto.rs: the protobuf codec and the messages of the wire protocol.
pub mod Error
pub mod Varint
pub mod Wire
pub mod Messages
pub mod Message
pub mod Codec
pub mod Frame

-- ===== src/Proto/Codec.antt =====
-- The `impl ProtoMessage` blocks of src/proto.rs, a module for each message.
pub mod ConnectRequest
pub mod SequenceHeader
pub mod TerminalBuffer
pub mod TerminalInfo
pub mod SocketEndpoint
pub mod InitialResponse
pub mod ConnectResponse
pub mod CatchupBuffer
pub mod PortForwardSourceRequest
pub mod InitialPayload

-- ===== src/Protocol.antt =====
-- internal/protocol and the messages of proto/famfun.proto.
pub mod Message
pub mod Stream
pub mod Framing
pub mod RegisterAuth

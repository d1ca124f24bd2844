-- ===== src/WsStream.antt =====
-- protocol/ws_stream.py: a WebSocket and its handshake.
pub mod Wsproto
pub mod Handshake
pub mod Buffer
pub mod Stream
pub mod Incoming
pub mod Sizes
pub mod SizesSent
pub mod FailedAccept
pub mod Limits
pub mod SizesReceived
pub mod Assembly
pub mod Accepting
mod Tests

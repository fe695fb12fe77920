-- ===== src/Transport.antt =====
-- core/transport: how frames are cut out of a byte stream.
pub mod Decoder
pub mod Stream
pub mod Start
pub mod Dispatch

-- ===== src/Framing.antt =====
-- The package core/framing: every frame in its two forms, received bytes and bytes to be written.
pub mod Convert
pub mod Program
pub mod Buffered
pub mod Parts
pub mod Shape
pub mod Payload
pub mod RequestResponse
pub mod FireAndForget
pub mod RequestStream
pub mod RequestChannel
pub mod RequestN
pub mod Cancel
pub mod Error
pub mod Keepalive
pub mod Lease
pub mod MetadataPush
pub mod ResumeOk
pub mod Resume
pub mod Setup

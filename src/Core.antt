-- ===== src/Core.antt =====
-- The package core: frame types, flags, headers, versions and error codes.
pub mod FrameType
pub mod Flag
pub mod Types
pub mod Header
pub mod Version

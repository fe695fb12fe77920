-- ===== src/Fragmentation.antt =====
-- The package internal/fragmentation: payloads above the MTU are sent as several frames.
pub mod Splitter
pub mod Joiner

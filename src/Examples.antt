-- ===== src/Examples.antt =====
-- The theorems at concrete inputs.
mod Formats
mod Frames
mod Runs
mod Sockets
mod Streams

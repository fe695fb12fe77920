-- ===== src/Socket.antt =====
-- internal/socket: the parts of a connection beside its frames.
pub mod StreamIds
pub mod Duplex
pub mod Leaser

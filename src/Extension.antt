-- ===== src/Extension.antt =====
-- extension: the formats of metadata.
pub mod Mime
pub mod Authentication
pub mod Composite
pub mod Routing

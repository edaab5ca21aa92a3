-- ===== src/External.antt =====
-- The libraries that the code calls and that this repository does not hold, as interfaces.
pub mod Protobuf
pub mod Absl
pub mod Ssl

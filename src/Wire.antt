-- ===== src/Wire.antt =====
-- python/vedadb/wire/vbp: the binary protocol.
pub mod Stream
pub mod Frame
pub mod Opcodes
pub mod Multiplexer
pub mod Reader
pub mod Types
pub mod Messages
pub mod Handlers
pub mod Client
pub mod Auth

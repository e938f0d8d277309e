-- ===== src/Serializer.antt =====
-- common/OSerializer.cpp: objects to messages and back.
pub mod Send
pub mod Compress
pub mod Rounds
pub mod Returned
pub mod Deflated
pub mod Uncompress
pub mod Receive
pub mod Numbering
pub mod Plain
pub mod Whole
pub mod Sealed
pub mod Sendable
pub mod Encrypted
pub mod Registry

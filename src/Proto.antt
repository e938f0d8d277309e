-- ===== src/Proto.antt =====
-- The field-wise serialization of protocol objects (common/OProtoBase.h, common/OProtoBase.cpp,
-- opp/IOStream.cpp) and the messages declared with it (opp/OPCBasicProto.h).
pub mod Types
pub mod Messages
pub mod Enumeration
pub mod Write
pub mod Read
pub mod Encoding
pub mod Emitted
pub mod Ensured
pub mod Loop
pub mod Written
pub mod Chunks
pub mod Rounds
pub mod Delivered
pub mod RoundTrip
pub mod Marked

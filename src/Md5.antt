-- ===== src/Md5.antt =====
-- common/crypto/Md5.cpp.
pub mod Process
pub mod Update
pub mod Digits
pub mod Reference
pub mod Agree
pub mod Equivalent
pub mod Absorb
pub mod Streaming
pub mod Padded
pub mod Hex
pub mod Printed
pub mod Sums

-- ===== src/Opc.antt =====
-- The daemon's file services: opc/OPCBasic.cpp and opc/FileHandler.cpp.
pub mod Grep
pub mod Replace
pub mod Files
pub mod Wildcard
pub mod Handlers
pub mod Daemon

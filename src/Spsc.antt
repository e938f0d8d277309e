-- ===== src/Spsc.antt =====
-- common/SPSCArray.h: an array used as a queue through two positions that only grow.
pub mod Array
pub mod Window
pub mod Queue

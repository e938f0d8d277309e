-- ===== src/Tests.antt =====
-- The theorems on concrete inputs.
mod Inputs
mod Objects
mod Wire
mod Peers
mod Queues
mod Digests
mod Compressing
mod Daemons
mod Files
mod Services

-- ===== src/Packet.antt =====
-- src/modules/roc_packet: packets, their order, and the queues and filters they pass through.
pub mod Units
pub mod Types
pub mod Order
pub mod SortedQueue
pub mod Reader
pub mod DelayedReader
pub mod Interleaver
pub mod Router
mod Tests

-- ===== src/Structures.antt =====
-- The data structures (src/structures).
pub mod Tagged
pub mod Map
pub mod Set
pub mod SegQueue
pub mod Stack
pub mod Queue
pub mod Order

-- ===== src/Checkers.antt =====
-- The property checkers of crates/vf-core/src: property.rs and, in invariants, stack.rs,
-- ring_buffer.rs, linked_list.rs, btree_plus.rs and ssi.rs.
pub mod Property
pub mod Stack
pub mod Lifo
pub mod RingBuffer
pub mod Contents
pub mod Sorted
pub mod Order
pub mod SsiHistory
pub mod Serializable
pub mod Tests
pub mod SsiTests
pub mod OrderTests

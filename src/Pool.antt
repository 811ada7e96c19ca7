-- ===== src/Pool.antt =====
-- memory_pool/memory_pool.hpp: the slab allocator.
pub mod Size
pub mod FreeList
pub mod Memory
pub mod Cache
pub mod Slab
mod Tests

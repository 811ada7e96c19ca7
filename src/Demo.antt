-- ===== src/Demo.antt =====
-- The demos and benchmarks of the bus and of the pool, as far as they use them:
-- spsc_bus/bench_thread.cpp, spsc_bus/producer_demo.cpp, spsc_bus/consumer_demo.cpp and
-- memory_pool/bench_pool.cpp.
pub mod Latency
pub mod Allocator
mod Tests

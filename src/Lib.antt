-- ===== src/Lib.antt =====
-- The in-memory messaging of this repository, and its memory and network layers, as functional
-- models. The program is a set of C++ components that are used side by side and share no state: a
-- pool of fixed-size blocks (memory_pool), a single-producer single-consumer bus in shared memory
-- (spsc_bus), a TCP request protocol with its server (tcp_server), timers (timer) and a clock (common).
--
-- Prelude holds the words (arithmetic modulo 2^64), lists, bit operations and outcomes that all parts
-- use. Fifo is the bounded queue that the ring buffers promise to be. Ring is the power-of-two ring
-- under positions that only grow, which memory_pool and spsc_bus share: `window` lists the entries
-- between two positions.
--
-- memory_pool/memory_pool.hpp is Pool. Pool/Size has align_up, next_pow2 and the size classes;
-- Pool/FreeList is SPSCFreeList (`push`, `pop`, `size_approx`); Pool/Memory is MemoryPool
-- (`construct`, `map_backing`, `populate`, `alloc`, `free`, `owns`, `available` and the statistics);
-- Pool/Cache is ThreadLocalCache (`alloc` with `refill`, `free` with `flush`, `flush_all`); Pool/Slab
-- is SlabPool. A block is its address, 0 the null pointer; a failed assertion is the outcome
-- `aborted`, an exception `threw`. mmap is a parameter. Pool/FreeList/Threads lets the single accesses
-- of a pushing and a popping thread follow in any order. POOL_NUMA is not modelled.
--
-- spsc_bus/spsc_bus.hpp is Bus. Bus/Layout has the sizes and offsets of the segment, Bus/Segment the
-- control block, the slots and SharedBus::create, Bus/Endpoints the constructors of Producer and
-- Consumer and try_push and try_pop. These two calls are put together from the steps between their
-- accesses to the shared positions (`reserve`, `fill`, `publish`; `arrived`, `copy_out`, `release`).
-- Bus/Threads lets the steps of both sides follow in any order, and a slot that is being written hold
-- anything until it is written; the acquire and release orderings of the source are taken to make the
-- accesses of a step visible in that order. The capacity is 2^k with k at most 31, as uint32_t allows.
-- The slots are a list, each apart from the others, while the source finds them by slot_stride, which
-- it stores as a uint32_t. It is stored whole for messages of at most 2^32 - 72 bytes, and
-- Bus/Layout/Bounds is about the slots then; for larger ones it is cut to 0 or 64, slots overlap, and
-- the model does not apply. Bus/Open is SharedBus::open over what each round of its loop finds, and
-- the liveness check; Bus/Checked is push_checked and pop_checked over what each attempt finds;
-- Bus/Lossy is OverwriteProducer's push and try_pop_lossy, which sees one segment up to its copy and
-- another from there on. Bus/Lossy/Threads lets the single accesses of both follow in any order, in
-- program order on each side, with the payload read a byte at a time; a pop there records how often
-- its slot's generation was stored to. A list of rounds or attempts that is over leaves the call
-- waiting. Bus/Owner is the moves and the destructor of SharedBus, on a list of objects and the calls
-- of munmap so far; Bus/Waiting is the calls that spin without a bound, push and pop, and the
-- heartbeats. Bus/Handshake is create in one process beside open in another, on a name under which
-- there is no object at first. Bus/Notifier is Notifier over an eventfd that is an interface, beside
-- the steps of Bus/Threads.
--
-- tcp_server/src/protocol.cpp and protocol.hpp are Net. Net/Socket has recv_exact and send_exact: what
-- each call of recv or send moves is a parameter, and a loop for n bytes has n rounds, which are enough
-- since a round that goes on moves a byte. Net/Protocol has the frames of requests and responses, which
-- differ in the name of a field only.
--
-- Net/ThreadPool is tcp_server/src/thread_pool.hpp: its callers and workers take steps in any order,
-- and a section under the mutex is one step, as is a notification; tasks return. A worker that finds
-- the condition of its wait false sleeps until it is notified, or wakes up spuriously. Net/Server is
-- tcp_server/src/tcp_server.cpp: the constructor, accept_loop over what each wait reports, and
-- handle_connection, whose fuel bounds the requests of a connection; Net/Client is the constructor of
-- TcpClient, whose send and recv are those of Net/Protocol. The handler is a function that returns. A
-- connection is submitted to the pool as its descriptor.
--
-- timer is Timer. Timer/Wheel is timer/include/timer_wheel.hpp: the four levels of slots with the map
-- of locations, `schedule`, `schedule_periodic`, `cancel`, `tick` with its cascades and `advance`. A
-- callback is a number, and what running it does to the wheel is a parameter. The list iterator of a
-- location is the place of the entry with that id in the slot. 64-bit ticks wrap. Timer/Wheel/Placed
-- says which slot an expiry stands in by the clocks of the levels; Cascade and Turn are about the
-- cascades, Due about what a tick fires, Firing and New about runs of calls. A callback that cancels
-- another timer of the slot that is being fired is outside the model.
--
-- Timer/Epoll is timer/src/epoll_timer.cpp with timer/include/epoll_timer.hpp. The priority queue is a
-- list in its order, where entries of the same expiry, whose order the library leaves open, stand in
-- the order of their insertion. The clock, epoll_wait, timerfd_settime and callbacks are parameters,
-- and the callbacks of one call of drain_expired see one time; times are natural numbers of
-- nanoseconds. The loop of drain_expired runs on fuel, and Timer/Epoll/Drain shows that some fuel is
-- enough for it where callbacks leave no more due entries than they find. Timer/Epoll/Times has the
-- conversions of its times, and Timer/Epoll/Run is run over a list of rounds, each with the stop that
-- came before it.
--
-- common/tsc_clock.hpp is Clock: the calibration over the readings of the clock, the correlation, and
-- to_wall_ns against the stores of recalibrate. The division by the frequency, which is in floating
-- point and truncated, is a parameter, of which nothing but that it is monotone is used.
--
-- Demo is the demos and benchmarks as far as they use the bus and the pool: the messages with tick
-- counts of spsc_bus/bench_thread.cpp, producer_demo.cpp and consumer_demo.cpp and the latencies that
-- come of them, and the rounds of memory_pool/bench_pool.cpp.
--
-- Not modelled: destructors and accessors; the unused push_entry of EpollTimer; what the demos and
-- benchmarks print, sort and time, with bench_clock.cpp as a whole; the tests.
pub mod Demo
pub mod Prelude
pub mod Fifo
pub mod Ring
pub mod Pool
pub mod Bus
pub mod Net
pub mod Timer
pub mod Clock

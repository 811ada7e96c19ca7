-- ===== src/Bus.antt =====
-- spsc_bus/spsc_bus.hpp: the shared-memory message bus.
pub mod Layout
pub mod Segment
pub mod Endpoints
pub mod Threads
pub mod Open
pub mod Lossy
pub mod Checked
pub mod Owner
pub mod Waiting
pub mod Notifier
pub mod Handshake
mod Tests

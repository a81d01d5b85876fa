-- ===== src/Afpacket.antt =====
-- os-daq-modules/daq_afpacket.c: packets through rings that are shared with the kernel. What the
-- kernel answers is an argument.
pub mod Layout
pub mod Ring
pub mod Bounds
pub mod Request
pub mod Frames
pub mod Circle
pub mod Bridge
pub mod Counters
pub mod Inject
pub mod Peers
pub mod Vlan
pub mod Tags
pub mod Analyse
pub mod Acquire
pub mod Safety
pub mod Handle
pub mod Passes
pub mod Limit
pub mod Devices
pub mod Options
pub mod Pairs
pub mod Startup
pub mod Stats
mod Tests
mod AcquireTests

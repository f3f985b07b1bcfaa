-- ===== src/Libvirt.antt =====
-- internal/libvirtsrc/source.go: the poller's source. The connection and its lock, the samples
-- kept from poll to poll, the reading of the balloon, the shapes in the domain's XML, the row of a
-- machine and the poll.
pub mod Memory
pub mod Rates
pub mod Connection
pub mod Shapes
pub mod Watch
pub mod Fill
pub mod Inspect
pub mod Start

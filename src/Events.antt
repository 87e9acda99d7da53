-- ===== src/Events.antt =====
-- daemon/events.c: the daemon's timers and the descriptors that it watches.
pub mod Time
pub mod Timers
pub mod Descriptors

-- ===== src/Memb.antt =====
-- daemon/membership.c: the membership protocol of the daemon.
pub mod Members
pub mod Reps
pub mod Rings
pub mod State
pub mod Shift
pub mod Loss
pub mod Regular
pub mod Form
pub mod Init
pub mod Handlers
pub mod Discipline

-- ===== src/Signal.antt =====
-- src/signal.c, src/kill.c, src/raise.c, src/getpid.c and include/signal.h, by its parts.
pub mod State
pub mod Sets
pub mod Queue
pub mod Mask
pub mod Action
pub mod Deliver
pub mod Wait

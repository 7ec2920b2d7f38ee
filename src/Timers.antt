-- ===== src/Timers.antt =====
-- src/timers.c: the table of timers and what goes on in it when one expires.
pub mod State
pub mod Table
pub mod Expiry
pub mod Api

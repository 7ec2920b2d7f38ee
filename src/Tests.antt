-- ===== src/Tests.antt =====
-- Runs of the functions on concrete data, and instances of the theorems.
mod Times
mod Tables
mod Polls
mod Sets
mod Queues
mod Waits
mod Sleeps
mod Clocks
mod Network
mod Leases
mod Servers
mod Names
mod Ticks
mod Chip
mod Card
mod Sockets
mod Disks
mod Addresses

-- ===== src/Dns.antt =====
-- src/getaddrinfo.c: the DNS resolver.
pub mod Name
pub mod Query
pub mod Response
pub mod Host

-- ===== src/Dhcp.antt =====
-- src/dhcp_client.c and include/dhcp_client.h: the DHCP client.
pub mod State
pub mod Options
pub mod Message
pub mod Reply
pub mod Client

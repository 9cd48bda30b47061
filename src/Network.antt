-- ===== src/Network.antt =====
-- kernel/network: byte order, MAC addresses, the ARP table and protocol, Ethernet frames, IPv4 and
-- the receive queue.
pub mod ByteOrder
pub mod Mac
pub mod Routing
pub mod Ethernet
pub mod Arp
pub mod Queue
pub mod Ipv4
pub mod E1000
mod Tests

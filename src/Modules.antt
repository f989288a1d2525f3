-- ===== src/Modules.antt =====
-- The decode modules of src/modules: each is a record of what its constructor and `setup` keep, its
-- parameters and the modules it leads to, and its `decode`.
pub mod Header
pub mod Contract
pub mod Ethernet
pub mod Dot1Q
pub mod Pppoe
pub mod Icmp
pub mod Ipv6
pub mod Udp
pub mod Dhcp
pub mod Tcp
pub mod Arp
pub mod Ipv4
pub mod Addresses

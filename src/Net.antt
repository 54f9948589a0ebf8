-- ===== src/Net.antt =====
-- kernel/src/net.c: ARP and ping over Ethernet frames. The card is a parameter.
mod Defs
pub mod Checksum
pub mod Packets
pub mod Polling
pub mod Arp
mod Tests
unfoldable pub use Defs.*

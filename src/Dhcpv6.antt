-- ===== src/Dhcpv6.antt =====
-- internal/prefix/dhcpv6pd_receiver.go: the DHCPv6 prefix delegation client. What the server, the
-- network and the clock do stands in the arguments.
pub mod Message
pub mod Backoff
pub mod Reply
pub mod Granted
pub mod Exchange
pub mod Loop
mod Examples

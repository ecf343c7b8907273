-- ===== src/Socks5.antt =====
-- ippop/socks5: the constants of the protocol, its errors, and the client connection that the
-- handshake reads from and writes to. The children hold the messages and the handshake.
pub mod Conn
pub mod Ip
pub mod Address
pub mod Datagram
pub mod Username
pub mod Auth
pub mod Server
pub mod Counts
pub mod Samples
mod Tests
mod UdpTests

-- ===== src/Socks5.antt =====
-- Package internal/socks5: the proxy's protocol, server side and client side.
pub mod ProxyFile
pub mod Conn
pub mod Wire
pub mod Auth
pub mod Request
pub mod Client
pub mod Udp
pub mod Associations
pub mod Datagram
pub mod Handler
pub mod Listener
pub mod Service

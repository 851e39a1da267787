-- ===== src/Ss.antt =====
-- internal/ss: the native Shadowsocks runtime.
pub mod Types
pub mod Copy
pub mod Limits
pub mod Traffic
pub mod Online
pub mod Netip
pub mod Resolver
pub mod HostPort
pub mod SocksAddr
pub mod Rules
pub mod Cipher
pub mod Stream
pub mod Packet
pub mod Translate
pub mod Service
pub mod Plane

-- ===== src/Protocol.antt =====
-- src/protocol: the codecs of the SOCKS5 messages.
pub mod Address
pub mod Handshake
pub mod Request
pub mod Reply
pub mod Udp
mod Tests

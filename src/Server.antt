-- ===== src/Server.antt =====
-- src/server: accepting, negotiating and relaying.
mod Tests
pub mod Connection
pub mod Udp
pub mod Admission
pub mod Connect
pub mod Accept
pub mod Handle

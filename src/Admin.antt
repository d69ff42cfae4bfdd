-- ===== src/Admin.antt =====
-- src/admin: the endpoint that a dashboard attaches to.
mod Tests
pub mod Ring
pub mod Frames
pub mod Client
pub mod Server
pub mod Socket
pub mod Serve

-- ===== src/Session.antt =====
-- session.go, mailbox.go, tls.go and conn.go: what a session is configured with, what it tells the
-- code that it calls, and the connection that it reads from and writes to.
pub mod Tls
pub mod Connection
pub mod Config
pub mod Status
pub mod Provider

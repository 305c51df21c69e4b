-- ===== src/Harness.antt =====
-- harness/: the client that tests a server over two buffers.
pub mod Pipe
pub mod Transcript
pub mod Client
pub mod Replies
pub mod Framing
pub mod Expect
pub mod Sending
pub mod Returns
pub mod Conn
pub mod Options
pub mod Conversation

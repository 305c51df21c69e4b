-- ===== src/Mem.antt =====
-- mem/: the mailbox registry and the message storage that are kept in memory.
pub mod Mailbox
pub mod Storage
pub mod Delivery

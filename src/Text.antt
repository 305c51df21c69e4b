-- ===== src/Text.antt =====
-- What the source uses of Go's `strings`, `bytes` and `fmt`, over the bytes of a string.
pub mod Search
pub mod Space
pub mod Case
pub mod Number

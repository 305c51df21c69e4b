-- ===== src/Engine.antt =====
-- engine.go: the engine that runs one session.
pub mod State
pub mod Greet
pub mod Mail
pub mod Stream
pub mod Data
pub mod Loop
pub mod Options
pub mod Arrival
pub mod Invariant

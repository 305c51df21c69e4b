-- ===== src/Tests.antt =====
-- Sessions that run, and the theorems at concrete inputs.
mod Sample
mod Sessions
mod Handlers
mod Machine
mod Dots
mod Commands
mod Parsing
mod Loops
mod Memory
mod Clients
mod Services
mod Schedules
mod Examples

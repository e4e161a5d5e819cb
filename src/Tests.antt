-- ===== src/Tests.antt =====
-- A concrete tuple layer, a concrete store, and the theorems of the library applied to them.
pub mod Plain
pub mod Scene
mod Examples
pub mod Running
mod Histories
pub mod Decisions
mod Signals
mod Calls
pub mod Reading
pub mod Binding

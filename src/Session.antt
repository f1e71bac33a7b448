-- ===== src/Session.antt =====
-- controller/session.go: one session of a node. Every method runs under `mu`, so a method is one
-- function from the state to the new state and its results. The clock is an argument; contexts,
-- channels, sandboxes and loops are numbers that stand for their identity.
pub mod State
pub mod Turns
pub mod Sandbox
pub mod Records
pub mod Results
pub mod Step
pub mod Invariant
pub mod Wires
pub mod Rendezvous
pub mod Leases
pub mod Exits
unfoldable pub use State.*

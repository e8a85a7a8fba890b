-- ===== src/Observer.antt =====
-- proxy/src/observation.rs: what the proxy reads off a response while it relays it.
pub mod Json
pub mod Usage
pub mod State
pub mod Choices
pub mod Finish
pub mod Sse
pub mod Tokens
pub mod Counts
pub mod Stated
pub mod Reported
pub mod Bounds
pub mod Kept
pub mod Retained
pub mod Framing
pub mod Outcome
pub mod Substance
pub mod Guard
mod Tests

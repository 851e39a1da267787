-- ===== src/Tests.antt =====
-- Runs of the models, and the theorems at concrete inputs.
pub mod Limits
pub mod Tracking
pub mod Addresses
mod Rules
mod Streams
mod Translation
mod Lifecycle
mod Handlers
mod Control
mod Native
mod Configuration

-- ===== src/Tests.antt =====
-- Concrete inputs, and the theorems applied to them.
pub mod Data
mod Frames
mod Packets
mod Sessions
mod Subscriptions

-- ===== src/Tests.antt =====
-- The theorems at concrete inputs: a configuration with one schedule of two actions and one suppression.
pub mod Fixtures
mod Running
mod DataModel
mod Fields
mod Timing
mod Suppressing
mod Storing
mod Recording
mod Trees

-- ===== src/Tests.antt =====
-- The theorems at concrete inputs: a counter in place of a sketch, and small windows.
mod Fixtures
mod Windows
mod Runtime
mod Keys
mod Panes
mod Merging
mod ExactData
mod Store
mod Tracking
mod Wrapped

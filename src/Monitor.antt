-- ===== src/Monitor.antt =====
-- Crate `se-monitor`: the detectors, and the daily pass over the strategies of the store.
pub mod Stats
pub mod Detect
pub mod Firing
pub mod Drawdown
pub mod Store
pub mod Daily
pub mod Audit
pub mod Frame
pub mod Regate
pub mod Condemned
pub mod Tests

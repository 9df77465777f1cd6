-- ===== src/Journal/Stats.antt =====
-- The statistics of closed trades in crates/se-journal, and those of crates/se-monitor.
use swing_x.Float.{Float}

-- ===== src/Monitor/Audit.antt =====
-- Every firing of the daily pass is written down.
use swing_x.Prelude.{ℕ, ◌+◌, ◌≡◌, length}
use swing_x.Float.{Float}
use swing_x.Monitor.Daily.{Run, total}

module _ {F : Type 0} where
  -- From `n` events at the start there is one more for each firing, and an alert besides for each
  -- drawdown and each stale source.
  record IsAudited (n : ℕ) (x : Run F) : Type 0 where
    counted : length x.0.events ≡ n + total x.1 + x.1.drawdown + x.1.staleness

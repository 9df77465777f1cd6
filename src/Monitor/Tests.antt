-- ===== src/Monitor/Tests.antt =====
-- The monitor on a small store, and the theorems at it.
use swing_x.Prelude.{ℕ, zero, suc, ◌+◌, ◌*◌, ◌≡◌, refl, inl, true, none, some, List, [], ◌∷◌}
use swing_x.Prelude.Int.{pos, negsuc, ◌-ℤ◌}
use swing_x.Float.Fixed.{Fixed, num, fixed_float, sqrt_fixed, ceil_fixed}
use swing_x.Float.FixedLaws.{Fixed-IsFloat}
use swing_x.Core.Genome.{StrategyStatus}
use swing_x.Validation.{ValidationResult, evaluate_opt}
use swing_x.Monitor.Stats.{
  max_drawdown, mean_std, draw, extend, sum, sum_from, squares, insert, sort, cvar, tail_length,
}
use swing_x.Monitor.Detect.{
  MonitorAction, Decision, default_thresholds, detect_divergence, detect_drawdown, detect_decay,
  decay_score, detect_calibration, detect_staleness, detect_regime_ood,
}
use swing_x.Monitor.Drawdown.{IsLeast, depths, max_drawdown-IsLeast}
use swing_x.Monitor.Store.{
  Db, StrategyRow, StratRow, ScoreRow, TradeRow, load_recent_trades, load_strategies, latest_score,
  load_promoted_gate_inputs, load_source_freshness, count_recent_ood, write_event,
  set_strategy_status, apply_strategy_decision, gate_inputs, newest_first, insert_newest,
  latest_by_source, merge_source,
}
use swing_x.Monitor.Daily.{
  nothing_fired, realized_r, check_strategy, check_strategies, regate_all, check_sources, passes,
  run_daily_with,
}
use swing_x.Monitor.Regate.{restored, passes-evaluate_opt, run_daily_with-passes}
use swing_x.Monitor.Condemned.{set_rows, verdict, check_strategy-verdict}

-- A result of `n` hundredths of the risk, gained or lost.
abbrev gain : ℕ → Fixed
gain n = num (pos (n * 100))

abbrev loss : ℕ → Fixed
loss zero = num (pos 0)
loss (suc n) = num (negsuc (n * 100 + 99))

abbrev curve : List Fixed
curve = gain 100 ∷ loss 250 ∷ gain 50 ∷ loss 100 ∷ []

deepest : max_drawdown curve ≡ some (loss 300)
unfolding max_drawdown draw extend
deepest = refl

abbrev result : ValidationResult Fixed
result = record {
  dsr = gain 90;
  pbo = gain 20;
  oos_expectancy_cost_aware = gain 30;
  profit_factor = num (pos 15_000);
  cvar5 = num (negsuc 9_999);
  mar = num (pos 10_000);
  regime_contrib = [];
  n_regimes_positive = pos 3;
  passed_gate = true;
  precision_oos = num (pos 7_000);
  recall_oos = num (pos 5_000);
  act_threshold = num (pos 5_000);
  n_acted_oos = pos 60;
  precision_forward = num (pos 6_000);
  expectancy_forward = num (pos 1_000);
  n_forward = pos 20;
}

abbrev good : ScoreRow Fixed
good = record {
  strategy_id = 1;
  evaluated_at = pos 5;
  dsr = some result.dsr;
  pbo = some result.pbo;
  oos_expectancy_cost_aware = some result.oos_expectancy_cost_aware;
  n_regimes_positive = result.n_regimes_positive;
}

-- Its expectancy has gone.
abbrev faded : ScoreRow Fixed
faded = record good { strategy_id = 2; oos_expectancy_cost_aware = some (loss 10) }

abbrev repeat : ℕ → TradeRow Fixed → List (TradeRow Fixed)
repeat zero t = []
repeat (suc n) t = t ∷ repeat n t

abbrev losing : TradeRow Fixed
losing = record {
  strategy_id = 3;
  mode = "live";
  entry_ts = pos 100;
  pnl_r = some (loss 300);
  conviction = none;
}

abbrev db : Db Fixed
db = record {
  clock = pos 200;
  strategies =
      record { strategy_id = 1; status = StrategyStatus.promoted }
      ∷ record { strategy_id = 2; status = StrategyStatus.promoted }
      ∷ record { strategy_id = 3; status = StrategyStatus.candidate }
      ∷ [];
  scores = good ∷ faded ∷ [];
  trades = repeat 15 losing;
  bars = ("alpaca", pos 150) ∷ [];
  features_pit = [];
  regimes = [];
  events = [];
}

abbrev losing_row : StratRow Fixed
losing_row = record { strategy_id = 3; oos_expectancy = none }

-- A drawdown breach retires the strategy, and decay, which fires after it, demotes it in the same pass.
demoted_after_retired :
    verdict none
      (detect_drawdown (realized_r (load_recent_trades db 3)) default_thresholds)
      (detect_decay (realized_r (load_recent_trades db 3)) default_thresholds)
    ≡ some StrategyStatus.demoted
unfolding load_recent_trades newest_first insert_newest ◌-ℤ◌ detect_drawdown detect_decay
    decay_score mean_std sum sum_from squares sort insert cvar tail_length ceil_fixed max_drawdown
    draw extend sqrt_fixed
demoted_after_retired = refl

retired_first :
    detect_drawdown (realized_r (load_recent_trades db 3)) default_thresholds
    ≡ some (record {
      metric_value = loss 300;
      threshold = num (negsuc 19_999);
      action = MonitorAction.disable;
    })
unfolding load_recent_trades newest_first insert_newest ◌-ℤ◌ detect_drawdown sum sum_from sort
    insert cvar tail_length ceil_fixed max_drawdown draw extend
retired_first = refl

check_strategy-verdict_example :
    (check_strategy default_thresholds (pos 200) losing_row (db, nothing_fired)).0.strategies
    ≡ set_rows 3
        (verdict none
          (detect_drawdown (realized_r (load_recent_trades db 3)) default_thresholds)
          (detect_decay (realized_r (load_recent_trades db 3)) default_thresholds))
        db.strategies
check_strategy-verdict_example =
    check_strategy-verdict default_thresholds (pos 200) losing_row (db, nothing_fired)

abbrev still_promoted : StrategyRow
still_promoted = record { strategy_id = 1; status = StrategyStatus.promoted }

-- The strategy with the good score stays promoted, that with the faded one does not.
after_the_run :
    (run_daily_with default_thresholds (pos 200) db).0.strategies
    ≡ record { strategy_id = 1; status = StrategyStatus.promoted }
      ∷ record { strategy_id = 2; status = StrategyStatus.demoted }
      ∷ record { strategy_id = 3; status = StrategyStatus.demoted }
      ∷ []
unfolding run_daily_with load_strategies check_strategies check_strategy load_recent_trades
    newest_first insert_newest ◌-ℤ◌ detect_divergence detect_drawdown detect_decay
    detect_calibration decay_score mean_std sum sum_from squares sort insert cvar tail_length
    ceil_fixed max_drawdown draw extend apply_strategy_decision set_strategy_status write_event
    load_promoted_gate_inputs gate_inputs latest_score regate_all passes check_sources
    load_source_freshness latest_by_source merge_source detect_staleness detect_regime_ood
    count_recent_ood sqrt_fixed
after_the_run = refl

latest_of_one : latest_score db.scores 1 ≡ some good
unfolding latest_score
latest_of_one = refl

run_daily_with-passes_example : passes good ≡ true
run_daily_with-passes_example =
    run_daily_with-passes default_thresholds (pos 200) db still_promoted good
      (rw after_the_run (inl refl)) refl latest_of_one

passes-evaluate_opt_example : passes faded ≡ (evaluate_opt (restored result faded)).passed
passes-evaluate_opt_example = passes-evaluate_opt result faded

max_drawdown-IsLeast_example :
    IsLeast Fixed-IsFloat (loss 300) (gain 0) (depths (gain 0) (gain 0) curve)
max_drawdown-IsLeast_example = max_drawdown-IsLeast Fixed-IsFloat curve (loss 300) deepest

-- Ten trades at a loss of 0.3, against an expectancy of 0.4.
abbrev sinking : List Fixed
sinking = realized_r (repeat 10 (record losing { pnl_r = some (loss 30) }))

abbrev to_quarantine_it : Decision Fixed
to_quarantine_it = record {
  metric_value = gain 70;
  threshold = gain 50;
  action = MonitorAction.quarantine;
}

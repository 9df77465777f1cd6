-- ===== src/Monitor/Frame.antt =====
-- What the phases of the daily pass leave alone.
use swing_x.Prelude.{ℕ, ◌≡◌, refl, ◌∙◌, Option, none, some, List, [], ◌∷◌, String}
use swing_x.Prelude.Int.{ℤ}
use swing_x.Float.{Float}
use swing_x.Core.Genome.{StrategyStatus}
use swing_x.Monitor.Detect.{Decision, Thresholds}
use swing_x.Monitor.Store.{
  Db, StratRow, new_status, set_status, write_event, set_strategy_status, apply_strategy_decision,
}
use swing_x.Monitor.Daily.{
  Run, check_strategy, check_strategies, check_sources, on_divergence, on_drawdown, on_calibration,
  on_decay, on_staleness, on_ood,
}

module _ {F : Type 0} ⦃f : Float F⦄ where
  apply-scores :
      (now : ℤ) (id : ℕ) (detector : String) (d : Decision F) (db : Db F)
      → (apply_strategy_decision now id detector d db).scores ≡ db.scores
  unfolding apply_strategy_decision set_strategy_status write_event
  apply-scores now id detector d db = go (new_status d.action)
    where
      go :
          (o : Option StrategyStatus)
          → (set_status id o
              (write_event now (some id) detector d.metric_value d.threshold d.action db)).scores
            ≡ db.scores
      go none = refl
      go (some s) = refl

  check_strategy-scores :
      (t : Thresholds F) (now : ℤ) (s : StratRow F) (x : Run F)
      → (check_strategy t now s x).0.scores ≡ x.0.scores
  unfolding check_strategy write_event
  check_strategy-scores t now s x = decay _ _ ∙ (calibration _ _ ∙ (drawdown _ _ ∙ divergence _ x))
    where
      id : ℕ
      id = s.strategy_id

      divergence :
          (o : Option (Decision F)) (x : Run F) → (on_divergence now id o x).0.scores ≡ x.0.scores
      divergence none x = refl
      divergence (some d) (db, r) = apply-scores now id "backtest_vs_live_divergence" d db

      drawdown :
          (o : Option (Decision F)) (x : Run F) → (on_drawdown now id o x).0.scores ≡ x.0.scores
      drawdown none x = refl
      drawdown (some d) (db, r) = apply-scores now id "drawdown_breach" d db

      calibration :
          (o : Option (Decision F)) (x : Run F) → (on_calibration now id o x).0.scores ≡ x.0.scores
      calibration none x = refl
      calibration (some d) (db, r) = apply-scores now id "calibration_break" d db

      decay : (o : Option (Decision F)) (x : Run F) → (on_decay now id o x).0.scores ≡ x.0.scores
      decay none x = refl
      decay (some d) (db, r) = apply-scores now id "decay" d db

  pub check_strategies-scores :
      (t : Thresholds F) (now : ℤ) (ss : List (StratRow F)) (x : Run F)
      → (check_strategies t now ss x).0.scores ≡ x.0.scores
  unfolding check_strategies
  check_strategies-scores t now [] x = refl
  check_strategies-scores t now (s ∷ ss) x =
      check_strategies-scores t now ss (check_strategy t now s x) ∙ check_strategy-scores t now s x

  on_staleness-strategies :
      (now : ℤ) (o : Option (Decision F)) (x : Run F)
      → (on_staleness now o x).0.strategies ≡ x.0.strategies
  unfolding write_event
  on_staleness-strategies now none x = refl
  on_staleness-strategies now (some d) x = refl

  pub on_ood-strategies :
      (now : ℤ) (o : Option (Decision F)) (x : Run F)
      → (on_ood now o x).0.strategies ≡ x.0.strategies
  unfolding write_event
  on_ood-strategies now none x = refl
  on_ood-strategies now (some d) x = refl

  pub check_sources-strategies :
      (t : Thresholds F) (now : ℤ) (sources : List (String × ℤ)) (x : Run F)
      → (check_sources t now sources x).0.strategies ≡ x.0.strategies
  unfolding check_sources
  check_sources-strategies t now [] x = refl
  check_sources-strategies t now ((source, latest) ∷ sources) x =
      check_sources-strategies t now sources _ ∙ on_staleness-strategies now _ x

-- ===== src/Monitor/Daily.antt =====
-- `run_daily_with` of crates/se-monitor/src/lib.rs on a store, with the report of what fired.
use Prim.Native.Nat.{◌/◌}
use swing_x.Prelude.{
  ℕ, suc, ◌+◌, ◌*◌, ◌^◌, Bool, false, ◌&&◌, Option, none, some, List, [], ◌∷◌, String,
  if◌then◌else◌,
}
use swing_x.Prelude.Int.{ℤ, pos, ◌-ℤ◌, leb_ℤ, is_neg, magnitude, signed}
use swing_x.Float.{Float}
use swing_x.Monitor.Detect.{
  MonitorAction, Decision, Thresholds, of_ℤ, detect_divergence, detect_drawdown, detect_calibration,
  detect_decay, detect_staleness, detect_regime_ood,
}
use swing_x.Monitor.Store.{
  Db, StratRow, ScoreRow, TradeRow, load_strategies, load_recent_trades, load_promoted_gate_inputs,
  load_source_freshness, count_recent_ood, write_event, apply_strategy_decision,
}

pub record DailyReport : Type 0 where
  pub divergence : ℕ
  pub drawdown : ℕ
  pub calibration : ℕ
  pub staleness : ℕ
  pub regime_ood : ℕ
  pub decay : ℕ
  pub regate : ℕ

abbrev pub nothing_fired : DailyReport
nothing_fired = record {
  divergence = 0;
  drawdown = 0;
  calibration = 0;
  staleness = 0;
  regime_ood = 0;
  decay = 0;
  regate = 0;
}

abbrev pub total : DailyReport → ℕ
total r =
    r.divergence + r.drawdown + r.calibration + r.staleness + r.regime_ood + r.decay + r.regate

abbrev pub filter_map {ℓ κ} : {A : Type ℓ} {B : Type κ} → (A → Option B) → List A → List B
filter_map g [] = []
filter_map g (x ∷ xs) = let rest = filter_map g xs in elim (g x) [ none ↦ rest | some y ↦ y ∷ rest ]

-- Whole minutes, truncated towards zero.
abbrev pub num_minutes : ℤ → ℤ
num_minutes d = signed (is_neg d) (magnitude d / (60 * 10 ^ 9))

-- The store and the report, which every step carries on.
abbrev pub Run : Type 0 → Type 0
Run F = Db F × DailyReport

module _ {F : Type 0} ⦃f : Float F⦄ where
  open f use {of_ℕ, decimal, nan, lt, div}

  abbrev pub realized_r : List (TradeRow F) → List F
  realized_r trades = filter_map (λ t. t.pnl_r) trades

  abbrev pub convictions : List (TradeRow F) → List F
  convictions trades = filter_map (λ t. t.conviction) trades

  -- Of the trades with a conviction, those with a result, and whether it is a gain.
  abbrev pub won : TradeRow F → Option Bool
  won t = elim t.conviction [
    | none ↦ none
    | some c ↦ elim t.pnl_r [ none ↦ none | some r ↦ some (lt (of_ℕ 0) r) ]
  ]

  abbrev pub wins : List (TradeRow F) → List Bool
  wins trades = filter_map won trades

  abbrev pub on_divergence : ℤ → ℕ → Option (Decision F) → Run F → Run F
  on_divergence now id none x = x
  on_divergence now id (some d) (db, r) = (
    apply_strategy_decision now id "backtest_vs_live_divergence" d db,
    record r { divergence = suc r.divergence },
  )

  abbrev pub on_drawdown : ℤ → ℕ → Option (Decision F) → Run F → Run F
  on_drawdown now id none x = x
  on_drawdown now id (some d) (db, r) = (
    write_event now (some id) "drawdown_breach" d.metric_value d.threshold MonitorAction.alert
        (apply_strategy_decision now id "drawdown_breach" d db),
    record r { drawdown = suc r.drawdown },
  )

  abbrev pub on_calibration : ℤ → ℕ → Option (Decision F) → Run F → Run F
  on_calibration now id none x = x
  on_calibration now id (some d) (db, r) = (
    apply_strategy_decision now id "calibration_break" d db,
    record r { calibration = suc r.calibration },
  )

  abbrev pub on_decay : ℤ → ℕ → Option (Decision F) → Run F → Run F
  on_decay now id none x = x
  on_decay now id (some d) (db, r) =
      (apply_strategy_decision now id "decay" d db, record r { decay = suc r.decay })

  abbrev pub divergence_of : Thresholds F → List F → Option F → Option (Decision F)
  divergence_of t rs none = none
  divergence_of t rs (some oos) = detect_divergence rs oos t

  -- The four detectors of one strategy, in their order.
  unfoldable pub check_strategy : Thresholds F → ℤ → StratRow F → Run F → Run F
  check_strategy t now strat (db, r) =
      let trades = load_recent_trades db strat.strategy_id in
      let rs = realized_r trades in
      on_decay now strat.strategy_id (detect_decay rs t) (
        on_calibration now strat.strategy_id
          (detect_calibration (convictions trades) (wins trades) t)
          (on_drawdown now strat.strategy_id (detect_drawdown rs t) (
            on_divergence now strat.strategy_id (divergence_of t rs strat.oos_expectancy) (db, r))))

  unfoldable pub check_strategies : Thresholds F → ℤ → List (StratRow F) → Run F → Run F
  check_strategies t now [] x = x
  check_strategies t now (s ∷ ss) x = check_strategies t now ss (check_strategy t now s x)

  -- The gate's comparisons, inlined.
  abbrev pub metrics_clear : Option F → Option F → Option F → Bool
  metrics_clear (some dsr) (some pbo) (some expectancy) =
      lt (of_ℕ 0) dsr && (lt pbo (decimal 5 1) && lt (of_ℕ 0) expectancy)
  metrics_clear _ _ _ = false

  unfoldable pub passes : ScoreRow F → Bool
  passes g =
      metrics_clear g.dsr g.pbo g.oos_expectancy_cost_aware && leb_ℤ (pos 2) g.n_regimes_positive

  abbrev pub regate_decision : ScoreRow F → Decision F
  regate_decision g = record {
    metric_value = elim g.oos_expectancy_cost_aware [ none ↦ nan | some x ↦ x ];
    threshold = of_ℕ 0;
    action = MonitorAction.demote;
  }

  abbrev pub regate_one : ℤ → ScoreRow F → Run F → Run F
  regate_one now g (db, r) = if passes g then (db, r) else (
    apply_strategy_decision now g.strategy_id "regate_failed" (regate_decision g) db,
    record r { regate = suc r.regate },
  )

  unfoldable pub regate_all : ℤ → List (ScoreRow F) → Run F → Run F
  regate_all now [] x = x
  regate_all now (g ∷ gs) x = regate_all now gs (regate_one now g x)

  abbrev pub on_staleness : ℤ → Option (Decision F) → Run F → Run F
  on_staleness now none x = x
  on_staleness now (some d) (db, r) = (
    write_event now none "data_staleness" d.metric_value d.threshold MonitorAction.alert
        (write_event now none "data_staleness" d.metric_value d.threshold d.action db),
    record r { staleness = suc r.staleness },
  )

  unfoldable pub check_sources : Thresholds F → ℤ → List (String × ℤ) → Run F → Run F
  check_sources t now [] x = x
  check_sources t now ((source, latest) ∷ sources) x =
      let age_hours = div (of_ℤ (num_minutes (now -ℤ latest))) (of_ℕ 60) in
      check_sources t now sources (on_staleness now (detect_staleness age_hours t) x)

  abbrev pub on_ood : ℤ → Option (Decision F) → Run F → Run F
  on_ood now none x = x
  on_ood now (some d) (db, r) = (
    write_event now none "regime_ood" d.metric_value d.threshold d.action db,
    record r { regime_ood = suc r.regime_ood },
  )

  -- The rows of a loop are loaded before it starts.
  unfoldable pub run_daily_with : Thresholds F → ℤ → Db F → Run F
  run_daily_with t now db =
      let checked = check_strategies t now (load_strategies db) (db, nothing_fired) in
      let regated = regate_all now (load_promoted_gate_inputs checked.0) checked in
      let fresh = check_sources t now (load_source_freshness regated.0) regated in
      on_ood now (detect_regime_ood (count_recent_ood fresh.0 now) t) fresh

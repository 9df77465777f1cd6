-- ===== src/Monitor/Detect.antt =====
-- The detectors of crates/se-monitor/src/detectors.rs, and `MonitorAction` of
-- crates/se-core/src/signal.rs. The text of a note is not built.
use swing_x.Prelude.{
  ℕ, suc, min, Bool, true, false, ◌&&◌, Option, none, some, List, [], ◌∷◌, ltb, if◌then◌else◌,
  length, take,
}
use swing_x.Prelude.Int.{ℤ, pos, leb_ℤ, is_neg, magnitude}
use swing_x.Float.{Float}
use swing_x.Monitor.Stats.{mean, mean_std, cvar, max_drawdown}

pub data MonitorAction : Type 0 where
  shrink_size quarantine force_refit recalibrate suppress disable demote retire : MonitorAction
  skip_degraded alert : MonitorAction

pub record Thresholds (F : Type 0) : Type 0 where
  pub divergence_shrink_r : F
  pub divergence_quarantine_r : F
  pub divergence_min_trades : ℕ
  pub divergence_z_shrink : F
  pub divergence_z_quarantine : F
  pub decay_min_trades : ℕ
  pub decay_z : F
  pub drawdown_cvar_floor_r : F
  pub drawdown_maxdd_floor_r : F
  pub drawdown_min_trades : ℕ
  pub calibration_gap : F
  pub calibration_min_trades : ℕ
  pub staleness_max_age_hours : F
  pub ood_count : ℤ

pub record Decision (F : Type 0) : Type 0 where
  pub metric_value : F
  pub threshold : F
  pub action : MonitorAction

-- The number of trades won.
abbrev pub count_true : List Bool → ℕ
count_true [] = 0
count_true (true ∷ bs) = suc (count_true bs)
count_true (false ∷ bs) = count_true bs

module _ {F : Type 0} ⦃f : Float F⦄ where
  open f use {of_ℕ, decimal, infinity, lt, le, add, sub, mul, div, neg, abs, sqrt}

  abbrev pub default_thresholds : Thresholds F
  default_thresholds = record {
    divergence_shrink_r = decimal 25 2;
    divergence_quarantine_r = decimal 50 2;
    divergence_min_trades = 10;
    divergence_z_shrink = decimal 164 2;
    divergence_z_quarantine = decimal 233 2;
    decay_min_trades = 15;
    decay_z = decimal 164 2;
    drawdown_cvar_floor_r = neg (decimal 20 1);
    drawdown_maxdd_floor_r = neg (decimal 60 1);
    drawdown_min_trades = 10;
    calibration_gap = decimal 15 2;
    calibration_min_trades = 20;
    staleness_max_age_hours = decimal 480 1;
    ood_count = pos 3;
  }

  -- The one-sided score of a shortfall against a deviation, certain where there is no deviation.
  unfoldable pub z_score : F → F → ℕ → F
  z_score shortfall s n =
      if lt (of_ℕ 0) s
      then div shortfall (div s (sqrt (of_ℕ n)))
      else if lt (of_ℕ 0) shortfall
      then infinity
      else of_ℕ 0

  abbrev pub judge_divergence : F → Thresholds F → Option (F × F × ℕ) → Option (Decision F)
  judge_divergence oos t none = none
  judge_divergence oos t (some (live, s, n)) =
      let gap = sub oos live in
      let z = z_score gap s n in
      if le t.divergence_z_quarantine z && le t.divergence_quarantine_r gap
      then some (record {
        metric_value = gap;
        threshold = t.divergence_quarantine_r;
        action = MonitorAction.quarantine;
      })
      else if le t.divergence_z_shrink z && le t.divergence_shrink_r gap
      then some (record {
        metric_value = gap;
        threshold = t.divergence_shrink_r;
        action = MonitorAction.shrink_size;
      })
      else none

  unfoldable pub detect_divergence : List F → F → Thresholds F → Option (Decision F)
  detect_divergence realized_r oos t =
      if ltb (length realized_r) t.divergence_min_trades
      then none
      else judge_divergence oos t (mean_std realized_r)

  -- The score of a mean below zero: with no deviation it tests the mean itself.
  unfoldable pub decay_score : F → F → ℕ → F
  decay_score m s n =
      if lt (of_ℕ 0) s
      then div (neg m) (div s (sqrt (of_ℕ n)))
      else if lt m (of_ℕ 0)
      then infinity
      else of_ℕ 0

  abbrev pub judge_decay : Thresholds F → Option (F × F × ℕ) → Option (Decision F)
  judge_decay t none = none
  judge_decay t (some (m, s, n)) =
      if le t.decay_z (decay_score m s n)
      then some (record { metric_value = m; threshold = of_ℕ 0; action = MonitorAction.demote })
      else none

  unfoldable pub detect_decay : List F → Thresholds F → Option (Decision F)
  detect_decay realized_r t =
      if ltb (length realized_r) t.decay_min_trades
      then none
      else judge_decay t (mean_std realized_r)

  abbrev pub judge_drawdown : Thresholds F → Option F → Option F → Option (Decision F)
  judge_drawdown t (some cv) (some mdd) =
      if le cv t.drawdown_cvar_floor_r
      then some (record {
        metric_value = cv;
        threshold = t.drawdown_cvar_floor_r;
        action = MonitorAction.disable;
      })
      else if le mdd t.drawdown_maxdd_floor_r
      then some (record {
        metric_value = mdd;
        threshold = t.drawdown_maxdd_floor_r;
        action = MonitorAction.disable;
      })
      else none
  judge_drawdown t _ _ = none

  unfoldable pub detect_drawdown : List F → Thresholds F → Option (Decision F)
  detect_drawdown realized_r t =
      if ltb (length realized_r) t.drawdown_min_trades
      then none
      else judge_drawdown t (cvar realized_r (decimal 5 2)) (max_drawdown realized_r)

  abbrev pub judge_calibration : Thresholds F → List Bool → ℕ → Option F → Option (Decision F)
  judge_calibration t wins n none = none
  judge_calibration t wins n (some predicted) =
      let realized = div (of_ℕ (count_true (take n wins))) (of_ℕ n) in
      let gap = abs (sub predicted realized) in
      if le t.calibration_gap gap
      then some (record {
        metric_value = gap;
        threshold = t.calibration_gap;
        action = MonitorAction.recalibrate;
      })
      else none

  unfoldable pub detect_calibration : List F → List Bool → Thresholds F → Option (Decision F)
  detect_calibration convictions wins t =
      let n = min (length convictions) (length wins) in
      if ltb n t.calibration_min_trades
      then none
      else judge_calibration t wins n (mean (take n convictions))

  unfoldable pub detect_staleness : F → Thresholds F → Option (Decision F)
  detect_staleness age_hours t =
      if lt t.staleness_max_age_hours age_hours
      then some (record {
        metric_value = age_hours;
        threshold = t.staleness_max_age_hours;
        action = MonitorAction.skip_degraded;
      })
      else none

  abbrev pub of_ℤ : ℤ → F
  of_ℤ n = if is_neg n then neg (of_ℕ (magnitude n)) else of_ℕ (magnitude n)

  unfoldable pub detect_regime_ood : ℤ → Thresholds F → Option (Decision F)
  detect_regime_ood ood_count t =
      if leb_ℤ t.ood_count ood_count
      then some (record {
        metric_value = of_ℤ ood_count;
        threshold = of_ℤ t.ood_count;
        action = MonitorAction.suppress;
      })
      else none

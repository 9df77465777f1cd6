-- ===== src/Monitor/Firing.antt =====
-- When a detector fires: enough trades, a metric past its threshold, and the action that goes with it.
use swing_x.Prelude.{
  ℕ, ◌≤◌, ◌≡◌, refl, inl, inr, Bool, Option, none, some, some-injective, List, arith, ltb, take,
  if◌then◌else◌, Bool-cases,
}
use swing_x.Float.{Float, ◌≼◌}
use swing_x.Monitor.Detect.{
  MonitorAction, Decision, Thresholds, z_score, decay_score, judge_decay, judge_drawdown,
  judge_calibration, count_true, detect_decay, detect_drawdown, detect_calibration,
}

module _ {F : Type 0} ⦃f : Float F⦄ where
  open f use {of_ℕ, sub, decimal}

  -- The mean fell short of the expectancy, by a gap that is both material and significant at the level
  -- of the action.
  pub data Diverged (oos : F) (t : Thresholds F) (stats : Option (F × F × ℕ)) (d : Decision F)
      : Type 0 where
    to_quarantine :
        (live s : F) (n : ℕ)
        → stats ≡ some (live, s, n)
        → d.action ≡ MonitorAction.quarantine
        → d.metric_value ≡ sub oos live
        → t.divergence_quarantine_r ≼ d.metric_value
        → t.divergence_z_quarantine ≼ z_score (sub oos live) s n
        → Diverged oos t stats d
    to_shrink :
        (live s : F) (n : ℕ)
        → stats ≡ some (live, s, n)
        → d.action ≡ MonitorAction.shrink_size
        → d.metric_value ≡ sub oos live
        → t.divergence_shrink_r ≼ d.metric_value
        → t.divergence_z_shrink ≼ z_score (sub oos live) s n
        → Diverged oos t stats d

  -- Whatever the drawdown detector decides, it decides to disable, and its metric, the tail mean or the
  -- deepest drawdown, is at or below its floor.
  judge_drawdown-disable :
      (t : Thresholds F) (cv mdd : Option F) (d : Decision F)
      → judge_drawdown t cv mdd ≡ some d
      → (d.action ≡ MonitorAction.disable) × (d.metric_value ≼ d.threshold)
  judge_drawdown-disable t none mdd d h = cc
  judge_drawdown-disable t (some cv) none d h = cc
  judge_drawdown-disable t (some cv) (some mdd) d h =
      elim (Bool-cases (f.le cv t.drawdown_cvar_floor_r)) [
        | inl e ↦ rw (← some-injective _ _ (rw e at h)) (refl, e)
        | inr e ↦ elim (Bool-cases (f.le mdd t.drawdown_maxdd_floor_r)) [
          | inl e' ↦ rw (← some-injective _ _ (rw e' at (rw e at h))) (refl, e')
          | inr e' ↦ absurd (cc (rw e' at (rw e at h)))
        ]
      ]

  judge_decay-demote :
      (t : Thresholds F) (o : Option (F × F × ℕ)) (d : Decision F)
      → judge_decay t o ≡ some d
      → d.action ≡ MonitorAction.demote
  judge_decay-demote t none d h = cc
  judge_decay-demote t (some (m, s, n)) d h =
      elim (Bool-cases (f.le t.decay_z (decay_score m s n))) [
        | inl e ↦ rw (← some-injective _ _ (rw e at h)) refl
        | inr e ↦ absurd (cc (rw e at h))
      ]

  judge_calibration-recalibrate :
      (t : Thresholds F) (wins : List Bool) (n : ℕ) (o : Option F) (d : Decision F)
      → judge_calibration t wins n o ≡ some d
      → d.action ≡ MonitorAction.recalibrate
  judge_calibration-recalibrate t wins n none d h = cc
  judge_calibration-recalibrate t wins n (some p) d h =
      elim (Bool-cases (f.le t.calibration_gap gap)) [
        | inl e ↦ rw (← some-injective _ _ (rw e at h)) refl
        | inr e ↦ absurd (cc (rw e at h))
      ]
    where
      gap : F
      gap = f.abs (sub p (f.div (of_ℕ (count_true (take n wins))) (of_ℕ n)))

  -- A test of the number of trades comes first in each detector.
  past_minimum :
      (n least : ℕ) (o : Option (Decision F)) (d : Decision F)
      → (if ltb n least then none else o) ≡ some d
      → (least ≤ n) × (o ≡ some d)
  past_minimum n least o d h = elim (Bool-cases (ltb n least)) [
    | inl e ↦ absurd (cc (rw e at h))
    | inr e ↦ (ground arith, rw e at h)
  ]

  pub detect_drawdown-disable :
      (rs : List F) (t : Thresholds F) (d : Decision F)
      → detect_drawdown rs t ≡ some d
      → d.action ≡ MonitorAction.disable
  unfolding detect_drawdown
  detect_drawdown-disable rs t d h = (judge_drawdown-disable t _ _ d (past_minimum _ _ _ d h).1).0

  pub detect_decay-demote :
      (rs : List F) (t : Thresholds F) (d : Decision F)
      → detect_decay rs t ≡ some d
      → d.action ≡ MonitorAction.demote
  unfolding detect_decay
  detect_decay-demote rs t d h = judge_decay-demote t _ d (past_minimum _ _ _ d h).1

  pub detect_calibration-recalibrate :
      (cs : List F) (wins : List Bool) (t : Thresholds F) (d : Decision F)
      → detect_calibration cs wins t ≡ some d
      → d.action ≡ MonitorAction.recalibrate
  unfolding detect_calibration
  detect_calibration-recalibrate cs wins t d h =
      judge_calibration-recalibrate t wins _ _ d (past_minimum _ _ _ d h).1

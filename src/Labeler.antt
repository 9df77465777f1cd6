-- ===== src/Labeler.antt =====
-- crates/se-labeler/src/triple_barrier.rs: which of target, stop and time limit is reached first.
-- An index out of range, at which the source panics, is the failure `panic`.
pub mod FirstTouch
pub mod Slice
pub mod Touch
pub mod Spec
pub mod Total
pub mod Horizon
pub mod Batch
pub mod Tests
use swing_x.Prelude.{
  ℕ, suc, ◌+◌, ◌-◌, min, ◌≡◌, Bool, true, false, not, ◌&&◌, ◌||◌, Option, none, some, List, [], ◌∷◌,
  ltb, leb, if◌then◌else◌, length, get_elem?, take, drop,
}
use swing_x.Prelude.Results.{Result, ok, err, ◌>>=◌, ◌>>◌, guard, or_fail}
use swing_x.Float.{Float, is_nan}
use swing_x.Core.Market.{Side, Bar, sign}
use swing_x.Core.Horizon.{HorizonProfile}
use swing_x.Core.Risk.{RiskModel, from_profile, risk_distance, stop_price, target_distance}

pub data Outcome : Type 0 where
  target stop time : Outcome

pub record LabelEvent (F : Type 0) : Type 0 where
  pub entry_ts : ℕ
  pub t1 : ℕ
  pub side : Side
  pub entry_px : F
  pub target_px : F
  pub stop_px : F
  pub outcome : Outcome
  pub ret_r : F

pub data LabelError : Type 0 where
  entry_out_of_range : ℕ → LabelError
  non_positive_atr non_positive_stop non_positive_risk zero_max_hold : LabelError
  panic : LabelError

abbrev pub Labeled : Type 0 → Type 0
Labeled F = Result LabelError (LabelEvent F)

-- `xs[a..=b]`
abbrev pub slice {ℓ} : {A : Type ℓ} → List A → ℕ → ℕ → Option (List A)
slice xs a b =
    if leb a (b + 1) && ltb b (length xs) then some (take (b + 1 - a) (drop a xs)) else none

abbrev pub last_index : ℕ → ℕ → ℕ → ℕ
last_index entry_idx max_hold n = min (entry_idx + max_hold) (n - 1)

module _ {F : Type 0} ⦃f : Float F⦄ where
  open f use {of_ℕ, add, sub, mul, div, neg, le, is_finite}

  abbrev pub hits_target : Side → F → F → F → Bool
  hits_target Side.long high low target_px = le target_px high
  hits_target Side.short high low target_px = le low target_px

  abbrev pub hits_stop : Side → F → F → F → Bool
  hits_stop Side.long high low stop_px = le low stop_px
  hits_stop Side.short high low stop_px = le stop_px high

  unfoldable pub resolve_bar : (high low target_px stop_px : F) → Side → Option Outcome
  resolve_bar high low target_px stop_px side =
      let hit_target = hits_target side high low target_px in
      let hit_stop = hits_stop side high low stop_px in
      if hit_target && hit_stop
      then some stop
      else if hit_stop
      then some stop
      else if hit_target
      then some target
      else none

  -- The loop over the bars after the entry; `idx` is the index of the first of them.
  unfoldable pub first_touch :
      (target_px stop_px : F) → Side → List (Bar F) → ℕ → Option (ℕ × Outcome)
  first_touch target_px stop_px side [] idx = none
  first_touch target_px stop_px side (b ∷ bs) idx =
      elim (resolve_bar b.high b.low target_px stop_px side) [
        | some out ↦ some (idx, out)
        | none ↦ first_touch target_px stop_px side bs (idx + 1)
      ]

  -- The index of the exit bar, the outcome and the return in R.
  abbrev pub settle :
      (bars : List (Bar F)) (s entry_px risk_dist target1_dist : F) (last_idx : ℕ)
      → Option (ℕ × Outcome)
      → Result LabelError (ℕ × Outcome × F)
  settle bars s entry_px risk_dist target1_dist last_idx none = do
    exit ← or_fail (get_elem? bars last_idx) panic
    ok (last_idx, time, div (mul s (sub exit.close entry_px)) risk_dist)
  settle bars s entry_px risk_dist target1_dist last_idx (some (j, target)) =
      ok (j, target, div target1_dist risk_dist)
  settle bars s entry_px risk_dist target1_dist last_idx (some (j, stop)) =
      ok (j, stop, neg (of_ℕ 1))
  settle bars s entry_px risk_dist target1_dist last_idx (some (j, time)) = ok (j, time, of_ℕ 0)

  -- The part of `label_one_with_risk` behind its checks, for the entry bar and the risk distance.
  abbrev pub label_from :
      (max_hold : ℕ) → List (Bar F) → ℕ → Side → F → RiskModel F → Bar F → F → Labeled F
  label_from max_hold bars entry_idx side atr risk entry risk_dist = do
    let stop_px = stop_price risk entry.close atr side
    let target1_dist = target_distance risk.target1 entry.close atr risk_dist
    let target_px = add entry.close (mul (sign side) target1_dist)
    let last_idx = last_index entry_idx max_hold (length bars)
    span ← or_fail (slice bars (entry_idx + 1) last_idx) panic
    let resolved = first_touch target_px stop_px side span (entry_idx + 1)
    (exit_idx, outcome, ret_r) ←
        settle bars (sign side) entry.close risk_dist target1_dist last_idx resolved
    exit ← or_fail (get_elem? bars exit_idx) panic
    ok (record {
      entry_ts = entry.ts;
      t1 = exit.ts;
      side = side;
      entry_px = entry.close;
      target_px = target_px;
      stop_px = stop_px;
      outcome = outcome;
      ret_r = ret_r;
    })

  abbrev pub is_unusable_atr : F → Bool
  is_unusable_atr atr = le atr (of_ℕ 0) || is_nan atr

  abbrev pub is_degenerate_risk : F → Bool
  is_degenerate_risk risk_dist = le risk_dist (of_ℕ 0) || not (is_finite risk_dist)

  unfoldable pub label_one_with_risk :
      HorizonProfile F → List (Bar F) → ℕ → Side → F → RiskModel F → Labeled F
  label_one_with_risk profile bars entry_idx side atr risk = do
    guard (leb 1 profile.max_hold_bars) zero_max_hold
    guard (ltb entry_idx (length bars)) (entry_out_of_range entry_idx)
    guard (not (is_unusable_atr atr)) non_positive_atr
    entry ← or_fail (get_elem? bars entry_idx) panic
    let risk_dist = risk_distance risk entry.close atr
    guard (not (is_degenerate_risk risk_dist)) non_positive_risk
    label_from profile.max_hold_bars bars entry_idx side atr risk entry risk_dist

  unfoldable pub label_one : HorizonProfile F → List (Bar F) → ℕ → Side → F → Labeled F
  label_one profile bars entry_idx side atr = do
    guard (not (le profile.stop_atr_mult (of_ℕ 0))) non_positive_stop
    label_one_with_risk profile bars entry_idx side atr (from_profile profile)

  -- `collect` stops at the first error.
  pub label_events_with_risk :
      HorizonProfile F
      → List (Bar F)
      → List (ℕ × Side × F)
      → RiskModel F
      → Result LabelError (List (LabelEvent F))
  label_events_with_risk profile bars [] risk = ok []
  label_events_with_risk profile bars ((idx, side, atr) ∷ entries) risk = do
    event ← label_one_with_risk profile bars idx side atr risk
    events ← label_events_with_risk profile bars entries risk
    ok (event ∷ events)

  pub label_events :
      HorizonProfile F
      → List (Bar F)
      → List (ℕ × Side × F)
      → Result LabelError (List (LabelEvent F))
  label_events profile bars [] = ok []
  label_events profile bars ((idx, side, atr) ∷ entries) = do
    event ← label_one profile bars idx side atr
    events ← label_events profile bars entries
    ok (event ∷ events)

-- ===== src/Labeler/Total.antt =====
-- When a label is produced, and that no index of the labeler is out of range.
use swing_x.Prelude.{
  ℕ, ◌+◌, ◌-◌, ◌≤◌, ◌<◌, ◌≡◌, refl, ◌∙◌, inl, inr, true, false, Option, none, some, List, arith,
  length, get_elem?, get_elem?-lt, take, drop, leb, ltb, ltb→lt, Bool-cases,
}
use swing_x.Prelude.Results.{Result, ok, err, >>=-of_ok, or_fail-of_some}
use swing_x.Float.{Float}
use swing_x.Core.Market.{Side, Bar, sign}
use swing_x.Core.Horizon.{HorizonProfile}
use swing_x.Core.Risk.{RiskModel, risk_distance, target_distance}
use swing_x.Labeler.{
  Outcome, target, stop, time, LabelEvent, LabelError, panic, zero_max_hold, entry_out_of_range,
  non_positive_atr, non_positive_risk, is_unusable_atr, is_degenerate_risk, slice, last_index,
  first_touch, settle, label_from, label_one_with_risk,
}
use swing_x.Labeler.Slice.{slice_of_bounds}
use swing_x.Labeler.Touch.{target_barrier, stop_barrier}
use swing_x.Labeler.Spec.{settle-Exit, checked}

module _ {F : Type 0} ⦃f : Float F⦄ where
  settle_total :
      (bars : List (Bar F)) (s entry_px risk_dist target1_dist : F) (last : ℕ)
      (o : Option (ℕ × Outcome))
      → last < length bars
      → (x : ℕ × Outcome × F) × (settle bars s entry_px risk_dist target1_dist last o ≡ ok x)
  settle_total bars s e r t last none h =
      let (exit, seen) = get_elem?-lt bars last h in (_, >>=-of_ok _ (or_fail-of_some panic seen))
  settle_total bars s e r t last (some (j, target)) h = (_, refl)
  settle_total bars s e r t last (some (j, stop)) h = (_, refl)
  settle_total bars s e r t last (some (j, time)) h = (_, refl)

  module _ (max_hold : ℕ) (bars : List (Bar F)) (i : ℕ) (side : Side) (atr : F) (risk : RiskModel F)
      (entry : Bar F) (at_entry : get_elem? bars i ≡ some entry) (inside : i < length bars) where
    label_from_total :
        (event : LabelEvent F) × (label_from max_hold bars i side atr risk entry
            (risk_distance risk entry.close atr)
          ≡ ok event)
    label_from_total =
        let last = last_index i max_hold (length bars) in
        let span = take (last + 1 - (i + 1)) (drop (i + 1) bars) in
        let is_span : slice bars (i + 1) last ≡ some span =
          slice_of_bounds bars (i + 1) last (omega arith) (omega arith) in
        let o =
          first_touch (target_barrier risk entry atr side) (stop_barrier risk entry atr side) side
            span (i + 1) in
        let R = risk_distance risk entry.close atr in
        let (x, settles) =
          settle_total bars (sign side) entry.close R
            (target_distance risk.target1 entry.close atr R) last o (omega arith) in
        let found =
          settle-Exit max_hold bars i side atr risk entry at_entry span is_span o x refl settles in
        let (exit, seen) = get_elem?-lt bars x.0 (omega (arith, found.exit_in.1)) in
        (
          _,
          >>=-of_ok _ (or_fail-of_some panic is_span)
              ∙ >>=-of_ok _ settles
              ∙ >>=-of_ok _ (or_fail-of_some panic seen),
        )

  -- What `label_one_with_risk` answers, and when.
  pub data Verdict (profile : HorizonProfile F) (bars : List (Bar F)) (i : ℕ) (atr : F)
      (risk : RiskModel F) (r : Result LabelError (LabelEvent F)) : Type 0 where
    no_hold : profile.max_hold_bars ≡ 0 → r ≡ err zero_max_hold → Verdict profile bars i atr risk r
    no_entry :
        1 ≤ profile.max_hold_bars
        → length bars ≤ i
        → r ≡ err (entry_out_of_range i)
        → Verdict profile bars i atr risk r
    no_atr :
        1 ≤ profile.max_hold_bars
        → i < length bars
        → is_unusable_atr atr ≡ true
        → r ≡ err non_positive_atr
        → Verdict profile bars i atr risk r
    no_risk :
        1 ≤ profile.max_hold_bars
        → (entry : Bar F) → get_elem? bars i ≡ some entry
        → is_unusable_atr atr ≡ false
        → is_degenerate_risk (risk_distance risk entry.close atr) ≡ true
        → r ≡ err non_positive_risk
        → Verdict profile bars i atr risk r
    labelled :
        1 ≤ profile.max_hold_bars
        → (entry : Bar F) → get_elem? bars i ≡ some entry
        → is_unusable_atr atr ≡ false
        → is_degenerate_risk (risk_distance risk entry.close atr) ≡ false
        → (event : LabelEvent F) → r ≡ ok event
        → Verdict profile bars i atr risk r

  checked-Verdict :
      (profile : HorizonProfile F) (bars : List (Bar F)) (i : ℕ) (side : Side) (atr : F)
      (risk : RiskModel F) (entry : Bar F)
      → 1 ≤ profile.max_hold_bars
      → get_elem? bars i ≡ some entry
      → i < length bars
      → is_unusable_atr atr ≡ false
      → Verdict profile bars i atr risk (checked profile bars i side atr risk entry)
  checked-Verdict profile bars i side atr risk entry hold found inside usable =
      elim (Bool-cases (is_degenerate_risk (risk_distance risk entry.close atr))) [
        | inl e ↦ no_risk hold entry found usable e (rw e)
        | inr e ↦
            let (event, is_event) =
              label_from_total profile.max_hold_bars bars i side atr risk entry found inside in
            labelled hold entry found usable e event (rw e is_event)
      ]

  -- The answer is an error for exactly the reason that it names, checked in the order of the code, and
  -- a label whenever the time limit is positive, the entry is a bar of the series, and the ATR and
  -- the risk distance are usable; no index is ever out of range.
  pub label_one_with_risk-Verdict :
      (profile : HorizonProfile F) (bars : List (Bar F)) (i : ℕ) (side : Side) (atr : F)
      (risk : RiskModel F)
      → Verdict profile bars i atr risk (label_one_with_risk profile bars i side atr risk)
  unfolding label_one_with_risk
  label_one_with_risk-Verdict profile bars i side atr risk =
      elim (Bool-cases (leb 1 profile.max_hold_bars)) [
        | inr e ↦ no_hold (ground arith) (rw e)
        | inl e ↦ elim (Bool-cases (ltb i (length bars))) [
          | inr e' ↦ no_entry (ground arith) (ground arith) (rw (e, e'))
          | inl e' ↦ elim (Bool-cases (is_unusable_atr atr)) [
            | inl u ↦ no_atr (ground arith) (ground arith) u (rw (e, e', u))
            | inr u ↦
                let inside = ltb→lt i (length bars) e' in
                let (entry, found) = get_elem?-lt bars i inside in
                rw (e, e', u, found)
                  (checked-Verdict profile bars i side atr risk entry (ground arith) found inside u)
          ]
        ]
      ]

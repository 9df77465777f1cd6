-- ===== src/Labeler/Spec.antt =====
-- A label of crates/se-labeler/src/triple_barrier.rs is the first touch.
use swing_x.Prelude.{
  ℕ, ◌+◌, ◌-◌, ◌≤◌, ◌<◌, ◌≡◌, refl, sym, ◌∙◌, not, Option, none, some, some-injective, List, arith,
  length, get_elem?, leb, ltb,
}
use swing_x.Prelude.Results.{
  Result, ok, ◌>>◌, guard, or_fail, >>=-eq-ok, guard-eq-ok, or_fail-eq-ok,
}
use swing_x.Float.{Float}
use swing_x.Core.Market.{Side, Bar, sign}
use swing_x.Core.Horizon.{HorizonProfile, purge_bars}
use swing_x.Core.Risk.{RiskModel, risk_distance, target_distance}
use swing_x.Labeler.{
  Outcome, target, stop, time, LabelEvent, LabelError, panic, zero_max_hold, entry_out_of_range,
  non_positive_atr, non_positive_risk, is_unusable_atr, is_degenerate_risk, slice, last_index,
  first_touch, settle, label_from, label_one_with_risk,
}
use swing_x.Labeler.FirstTouch.{
  touched, FirstAt, first_touch-none, first_touch-some, resolve_bar_conservative,
}
use swing_x.Labeler.Slice.{slice-eq_some, get_elem?-slice, get_elem?-slice_of}
use swing_x.Labeler.Touch.{
  target_barrier, stop_barrier, Settled, by_stop, by_target, by_time, Settled-eq, IsFirstTouch,
}

module _ {F : Type 0} ⦃f : Float F⦄ where
  open f use {of_ℕ, add, sub, mul, div, neg}

  module _ (max_hold : ℕ) (bars : List (Bar F)) (i : ℕ) (side : Side) (atr : F) (risk : RiskModel F)
      (entry : Bar F) (at_entry : get_elem? bars i ≡ some entry) where
    abbrev pub R : F
    R = risk_distance risk entry.close atr

    abbrev pub T : F
    T = target_barrier risk entry atr side

    abbrev pub S : F
    S = stop_barrier risk entry atr side

    abbrev pub last : ℕ
    last = last_index i max_hold (length bars)

    -- No bar of the walk before number `j` is touched.
    abbrev pub Untouched : ℕ → Type 0
    Untouched j =
        (k : ℕ) (c : Bar F) → i < k → k < j → get_elem? bars k ≡ some c → touched T S side c ≡ none

    module _ (span : List (Bar F)) (is_span : slice bars (i + 1) last ≡ some span) where
      Untouched-of_none :
          (j : ℕ) → j ≤ last + 1 → first_touch T S side span (i + 1) ≡ none → Untouched j
      Untouched-of_none j le h k c lo hi g =
          let at : i + 1 + (k - (i + 1)) ≡ k = omega arith in
          first_touch-none T S side span (i + 1) h (k - (i + 1)) c (
            get_elem?-slice_of bars (i + 1) last (k - (i + 1)) span is_span (omega arith) ∙ rw at g)

      Untouched-of_some :
          (d : ℕ) (o : Outcome)
          → FirstAt T S side span d o
          → i + 1 + d ≤ last
          → Untouched (i + 1 + d)
      Untouched-of_some d o first le k c lo hi g =
          let at : i + 1 + (k - (i + 1)) ≡ k = omega arith in
          first.before (k - (i + 1)) c (omega arith) (
            get_elem?-slice_of bars (i + 1) last (k - (i + 1)) span is_span (omega arith) ∙ rw at g)

      -- What the walk settles: an exit bar, in range.
      pub record Exit (x : ℕ × Outcome × F) : Type 0 where
        pub exit_in : (i ≤ x.0) × (x.0 ≤ last)
        pub before : Untouched x.0
        pub settled :
            (exit : Bar F)
            → get_elem? bars x.0 ≡ some exit
            → Settled risk entry atr side i last x.0 exit x.1 x.2

      last-lt : i ≤ last
      last-lt = let (bound, inside, e) = slice-eq_some bars (i + 1) last is_span in omega arith

      -- The bar at distance `d` of the walk, with its place in the series.
      exit_of_first :
          (d : ℕ) (o : Outcome)
          → FirstAt T S side span d o
          → (i + 1 + d ≤ last)
            × ((exit : Bar F)
                → get_elem? bars (i + 1 + d) ≡ some exit
                → touched T S side exit ≡ some o)
      exit_of_first d o first =
          let (at, le) = get_elem?-slice bars (i + 1) last d span is_span first.at_bar in
          (le, λ exit g. rw (some-injective _ _ (sym g ∙ at)) first.resolves)

      pub settle-Exit :
          (o : Option (ℕ × Outcome)) (x : ℕ × Outcome × F)
          → first_touch T S side span (i + 1) ≡ o
          → settle bars
              (sign side)
              entry.close
              R
              (target_distance risk.target1 entry.close atr R)
              last
              o
            ≡ ok x
          → Exit x
      settle-Exit none x e h =
          let (exit, found, k) = >>=-eq-ok (or_fail (get_elem? bars last) panic) _ h in
          let at : x.0 ≡ last = ground arith in
          let seen = or_fail-eq-ok (get_elem? bars last) panic found in
          record {
            exit_in = (omega (arith, last-lt), omega arith);
            before = Untouched-of_none x.0 (omega arith) e;
            settled = λ c g.
                let same = some-injective _ _ (sym seen ∙ rw at at g) in
                by_time at
                  (λ lt. Untouched-of_none (last + 1) (omega arith) e x.0 c lt (omega arith) g)
                  (ground arith) (rw (← same) (ground arith));
          }
      settle-Exit (some (j, target)) x e h =
          let (d, at, first) = first_touch-some T S side span (i + 1) _ e in
          let (le, resolves) = exit_of_first d _ first in
          let at : x.0 ≡ i + 1 + d = ground arith in
          record {
            exit_in = (omega arith, omega arith);
            before = rw at (Untouched-of_some d _ first le);
            settled = λ c g.
                by_target (omega arith) (resolves c (rw at at g)) (ground arith) (ground arith);
          }
      settle-Exit (some (j, stop)) x e h =
          let (d, at, first) = first_touch-some T S side span (i + 1) _ e in
          let (le, resolves) = exit_of_first d _ first in
          let at : x.0 ≡ i + 1 + d = ground arith in
          record {
            exit_in = (omega arith, omega arith);
            before = rw at (Untouched-of_some d _ first le);
            settled = λ c g.
                by_stop (omega arith) (resolves c (rw at at g)) (ground arith) (ground arith);
          }
      settle-Exit (some (j, time)) x e h =
          let (d, at, first) = first_touch-some T S side span (i + 1) _ e in
          absurd ((resolve_bar_conservative T S side first.bar.high first.bar.low).3 first.resolves)

    label_from-IsFirstTouch :
        {event : LabelEvent F}
        → label_from max_hold bars i side atr risk entry R ≡ ok event
        → IsFirstTouch max_hold bars i side atr risk event
    label_from-IsFirstTouch {event} h =
        let (span, hspan, k) = >>=-eq-ok (or_fail (slice bars (i + 1) last) panic) _ h in
        let is_span = or_fail-eq-ok (slice bars (i + 1) last) panic hspan in
        let (x, hx, k') =
          >>=-eq-ok
            (settle bars (sign side) entry.close R (target_distance risk.target1 entry.close atr R)
              last (first_touch T S side span (i + 1)))
            _ k in
        let (exit, hexit, k'') = >>=-eq-ok (or_fail (get_elem? bars x.0) panic) _ k' in
        let seen = or_fail-eq-ok (get_elem? bars x.0) panic hexit in
        let found = settle-Exit span is_span _ x refl hx in
        record {
          entry = entry;
          at_entry = at_entry;
          exit_idx = x.0;
          exit = exit;
          at_exit = seen;
          not_before = found.exit_in.0;
          within_hold = omega (arith, found.exit_in.1);
          entry_ts = ground arith;
          t1 = ground arith;
          same_side = ground arith;
          entry_px = ground arith;
          target_px = ground arith;
          stop_px = ground arith;
          untouched = found.before;
          settled = Settled-eq (found.settled exit seen) (ground arith) (ground arith);
        }

  abbrev pub checked :
      HorizonProfile F
      → List (Bar F)
      → ℕ
      → Side
      → F
      → RiskModel F
      → Bar F
      → Result LabelError (LabelEvent F)
  checked profile bars i side atr risk entry = do
    let risk_dist = risk_distance risk entry.close atr
    guard (not (is_degenerate_risk risk_dist)) non_positive_risk
    label_from profile.max_hold_bars bars i side atr risk entry risk_dist

  -- A label that is returned without an error is the first touch: the exit is the first bar after the
  -- entry whose range reaches a barrier, at most `purge_bars` bars later, or else the last bar of the
  -- walk; a bar that reaches both barriers stops; the return is -1, the ratio of the distances, or
  -- the signed move of the close over the risk; and `t1` is the time of the exit bar.
  pub label_one_with_risk-IsFirstTouch :
      (profile : HorizonProfile F) (bars : List (Bar F)) (i : ℕ) (side : Side) (atr : F)
      (risk : RiskModel F) {event : LabelEvent F}
      → label_one_with_risk profile bars i side atr risk ≡ ok event
      → IsFirstTouch (purge_bars profile) bars i side atr risk event
  unfolding label_one_with_risk
  label_one_with_risk-IsFirstTouch profile bars i side atr risk h =
      let (_, k) = guard-eq-ok (leb 1 profile.max_hold_bars) zero_max_hold _ h in
      let (_, k') = guard-eq-ok (ltb i (length bars)) (entry_out_of_range i) _ k in
      let (_, l) = guard-eq-ok (not (is_unusable_atr atr)) non_positive_atr _ k' in
      let (entry, found, m) =
        >>=-eq-ok (or_fail (get_elem? bars i) panic) (checked profile bars i side atr risk) l in
      let (_, m') =
        guard-eq-ok (not (is_degenerate_risk (risk_distance risk entry.close atr)))
          non_positive_risk _ m in
      label_from-IsFirstTouch profile.max_hold_bars bars i side atr risk entry
        (or_fail-eq-ok (get_elem? bars i) panic found) m'

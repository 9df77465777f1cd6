-- ===== src/Labeler/Tests.antt =====
-- The labeler on the series of the source's own tests, and the theorems at such series.
use swing_x.Prelude.{
  ℕ, ◌*◌, ◌≡◌, ◌≢◌, true, false, none, refl, some, List, [], ◌∷◌, ◌++◌, ◌↔◌, arith,
}
use swing_x.Prelude.Results.{ok, err}
use swing_x.Prelude.Int.{pos, negsuc}
use swing_x.Float.Fixed.{Fixed, num, fixed_float}
use swing_x.Core.Market.{Side, Bar}
use swing_x.Core.Horizon.{HorizonProfile, swing_profile}
use swing_x.Core.Risk.{
  RiskModel, default_const, risk_distance, stop_price, stop_distance, target_distance,
}
use swing_x.Labeler.{
  Outcome, LabelEvent, resolve_bar, first_touch, hits_target, hits_stop, label_one_with_risk,
  entry_out_of_range,
}
use swing_x.Labeler.FirstTouch.{resolve_bar_conservative}
use swing_x.Labeler.Touch.{IsFirstTouch}
use swing_x.Labeler.Spec.{label_one_with_risk-IsFirstTouch}
use swing_x.Labeler.Horizon.{label_one_with_risk-append}
use swing_x.Labeler.Total.{Verdict, label_one_with_risk-Verdict}

-- A price in cents.
abbrev cents : ℕ → Fixed
cents n = num (pos (n * 100))

abbrev candle : ℕ → ℕ → ℕ → ℕ → Bar Fixed
candle ts high low close = record {
  ticker = "SPY";
  ts = ts;
  open_px = cents close;
  high = cents high;
  low = cents low;
  close = cents close;
  volume = cents 100;
}

abbrev profile : HorizonProfile Fixed
profile = record swing_profile { max_hold_bars = 2 }

abbrev risk : RiskModel Fixed
risk = default_const

-- Entry at 100 with a stop at 99 and a target at 102: the second bar spans both.
abbrev wide : List (Bar Fixed)
wide =
    candle 10 10_000 10_000 10_000
    ∷ candle 11 10_150 9_950 10_050
    ∷ candle 12 10_300 9_800 10_000
    ∷ []

abbrev stopped : LabelEvent Fixed
stopped = record {
  entry_ts = 10;
  t1 = 12;
  side = Side.long;
  entry_px = cents 10_000;
  target_px = cents 10_200;
  stop_px = cents 9_900;
  outcome = Outcome.stop;
  ret_r = num (negsuc 9_999);
}

both_in_one_bar_stops : label_one_with_risk profile wide 0 Side.long (cents 100) risk ≡ ok stopped
unfolding label_one_with_risk first_touch resolve_bar risk_distance stop_price target_distance
    stop_distance
both_in_one_bar_stops = refl

no_entry_bar :
    label_one_with_risk profile wide 3 Side.long (cents 100) risk ≡ err (entry_out_of_range 3)
unfolding label_one_with_risk
no_entry_bar = refl

-- The last bar of `wide` spans both barriers.
resolve_bar_conservative_example :
    let o = resolve_bar (cents 10_300) (cents 9_800) (cents 10_200) (cents 9_900) Side.long in
    let at_target = hits_target Side.long (cents 10_300) (cents 9_800) (cents 10_200) in
    let at_stop = hits_stop Side.long (cents 10_300) (cents 9_800) (cents 9_900) in
    ((o ≡ some Outcome.stop) ↔ (at_stop ≡ true))
    × ((o ≡ some Outcome.target) ↔ ((at_target ≡ true) × (at_stop ≡ false)))
    × ((o ≡ none) ↔ ((at_target ≡ false) × (at_stop ≡ false)))
    × (o ≢ some Outcome.time)
resolve_bar_conservative_example =
    resolve_bar_conservative (cents 10_200) (cents 9_900) Side.long (cents 10_300) (cents 9_800)

label_one_with_risk-IsFirstTouch_example : IsFirstTouch 2 wide 0 Side.long (cents 100) risk stopped
label_one_with_risk-IsFirstTouch_example =
    label_one_with_risk-IsFirstTouch profile wide 0 Side.long (cents 100) risk both_in_one_bar_stops

label_one_with_risk-append_example :
    label_one_with_risk profile
      (wide ++ candle 13 20_000 1_000 5_000 ∷ [])
      0
      Side.long
      (cents 100)
      risk
    ≡ label_one_with_risk profile wide 0 Side.long (cents 100) risk
label_one_with_risk-append_example =
    label_one_with_risk-append wide (candle 13 20_000 1_000 5_000 ∷ []) profile 0 Side.long
      (cents 100) risk (omega arith)

label_one_with_risk-Verdict_example :
    Verdict profile wide 1
      (cents 100)
      risk
      (label_one_with_risk profile wide 1 Side.short (cents 100) risk)
label_one_with_risk-Verdict_example =
    label_one_with_risk-Verdict profile wide 1 Side.short (cents 100) risk

-- ===== src/Search/Backtest/Tests.antt =====
-- A backtest of a genome on a small window, the firewall on two rows, and the theorems at them.
use swing_x.Prelude.{
  All, false, ℕ, ◌+◌, ◌*◌, ◌≡◌, ◌↔◌, refl, none, some, List, [], ◌∷◌, String, OneOf, length, arith,
}
use swing_x.Prelude.Int.{pos}
use swing_x.Float.Fixed.{Fixed, num, fixed_float}
use swing_x.Core.Layer.{Layer}
use swing_x.Core.Market.{Side, Bar}
use swing_x.Core.Horizon.{Horizon, HorizonProfile, swing_profile, for_horizon}
use swing_x.Core.Genome.{CmpOp, Genome, new, fires}
use swing_x.Core.Risk.{from_profile, risk_distance, stop_price, stop_distance, target_distance}
use swing_x.Labeler.{label_one_with_risk, first_touch, resolve_bar}
use swing_x.Regime.{
  classify, classify_known, insert_ranked, core_count, out_of_bounds, candidates, scores, softmax,
  rank,
}
use swing_x.Search.Backtest.{BarPoint, FeatureWindow, visit, walk, backtest, build_dataset}
use swing_x.Search.Backtest.Dataset.{IsAscending, build_dataset-IsAscending}
use swing_x.Search.Backtest.Replay.{IsReplay, backtest-IsReplay}
use swing_x.Search.Firewall.{
  DatasetRow, Touches, firewall_test_era, firewall_test_era_iff, overlaps,
}

abbrev cents : ℕ → Fixed
cents n = num (pos (n * 100))

abbrev candle : ℕ → ℕ → ℕ → ℕ → Bar Fixed
candle ts high low close = record {
  ticker = "SPY";
  ts = ts;
  open_px = cents close;
  high = cents high;
  low = cents low;
  close = cents close;
  volume = cents 100;
}

abbrev features : List (String × Fixed)
features =
    ("regime.rv_percentile", num (pos 2_000))
    ∷ ("regime.vix_vix3m", num (pos 9_000))
    ∷ ("regime.vvix", num (pos 850_000))
    ∷ ("trigger.rsi14", num (pos 600_000))
    ∷ []

abbrev point : ℕ → Bar Fixed → BarPoint Fixed
point i bar = record { bar = bar; idx = i; features = features; atr = some (cents 100) }

abbrev bars : List (Bar Fixed)
bars =
    candle 10 10_000 10_000 10_000
    ∷ candle 11 10_150 9_950 10_050
    ∷ candle 12 10_300 9_800 10_000
    ∷ candle 13 10_300 9_800 10_000
    ∷ []

abbrev pub window : FeatureWindow Fixed
window = record {
  ticker = "SPY";
  bars = bars;
  points =
      point 0 (candle 10 10_000 10_000 10_000)
      ∷ point 1 (candle 11 10_150 9_950 10_050)
      ∷ point 2 (candle 12 10_300 9_800 10_000)
      ∷ [];
}

abbrev pub profile : HorizonProfile Fixed
profile = record swing_profile { max_hold_bars = 2; min_hold_bars = 1 }

abbrev genome : Genome Fixed
genome = new Side.long Horizon.swing (
    record {
      layer = Layer.trigger;
      feature_key = "trigger.rsi14";
      op = CmpOp.gt;
      threshold = num (pos 400_000);
    }
    ∷ [])

-- A stand-in for the exponential: it only has to be some function.
abbrev pub identity : Fixed → Fixed
identity x = x

-- The first and the third point enter; the second is within the cooldown.
two_entries : length (backtest identity genome window profile).entries ≡ 2
unfolding backtest walk visit fires new classify classify_known core_count out_of_bounds candidates
    scores softmax rank insert_ranked from_profile for_horizon label_one_with_risk first_touch
    resolve_bar risk_distance stop_price target_distance stop_distance
two_entries = refl

backtest-IsReplay_example :
    IsReplay identity genome profile bars none window.points
      (backtest identity genome window profile).entries
backtest-IsReplay_example = backtest-IsReplay identity genome window profile

abbrev row : ℕ → ℕ → DatasetRow Fixed
row ts t1 = record { ts = ts; t1 = t1; label = cents 1; regime = none; features = [] }

firewall_test_era_iff_example :
    let (kept, purged) = firewall_test_era (row 5 9 ∷ row 8 12 ∷ []) (some (10, 20)) in
    (OneOf (row 5 9) kept ↔ (OneOf (row 5 9) (row 5 9 ∷ row 8 12 ∷ []) × ¬ Touches 10 20 (row 5 9)))
    × (length kept + purged ≡ 2)
firewall_test_era_iff_example =
    firewall_test_era_iff (row 5 9 ∷ row 8 12 ∷ []) 10 20 (row 5 9) (omega arith) (omega arith)

build_dataset-IsAscending_example :
    let (rows, n) = build_dataset identity genome profile (some (13, 20)) (window ∷ []) in
    IsAscending rows × All (λ r. overlaps 13 20 r ≡ false) rows × (n ≡ length rows)
build_dataset-IsAscending_example =
    build_dataset-IsAscending identity genome profile 13 20 (window ∷ [])

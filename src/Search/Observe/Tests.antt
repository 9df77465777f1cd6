-- ===== src/Search/Observe/Tests.antt =====
-- The catalog of a window of two bars.
use swing_x.Prelude.{ℕ, ◌≡◌, refl, none, List, [], ◌∷◌, length}
use swing_x.Prelude.Int.{pos}
use swing_x.Float.Fixed.{Fixed, num, fixed_float}
use swing_x.Core.Market.{Bar}
use swing_x.Store.Pit.{order_by, insert_sorted}
use swing_x.Search.Catalog.{is_informative}
use swing_x.Search.Backtest.{BarPoint, FeatureWindow}
use swing_x.Search.Observe.{
  from_windows, push_windows, push_points, push_features, push_value, stats_of,
}

abbrev bar : ℕ → Bar Fixed
bar ts = record {
  ticker = "SPY";
  ts = ts;
  open_px = num (pos 100);
  high = num (pos 100);
  low = num (pos 100);
  close = num (pos 100);
  volume = num (pos 100);
}

-- The second feature does not vary.
abbrev point : ℕ → ℕ → BarPoint Fixed
point i rsi = record {
  bar = bar i;
  idx = i;
  features = ("trigger.rsi14", num (pos rsi)) ∷ ("regime.vvix", num (pos 850_000)) ∷ [];
  atr = none;
}

abbrev windows : List (FeatureWindow Fixed)
windows =
    record {
      ticker = "SPY";
      bars = bar 0 ∷ bar 1 ∷ [];
      points = point 0 600_000 ∷ point 1 400_000 ∷ [];
    }
    ∷ []

one_feature : length (from_windows windows 2).stats ≡ 1
unfolding from_windows push_windows push_points push_features push_value stats_of is_informative
    order_by insert_sorted
one_feature = refl

-- ===== src/Search/Window/Tests.antt =====
-- A store today and the same store a day later, and the theorems at them.
use swing_x.Prelude.{ℕ, ◌+◌, ◌*◌, ◌%◌, ◌≡◌, refl, some, [], ◌∷◌, All}
use swing_x.Prelude.Int.{pos}
use swing_x.Float.Fixed.{Fixed, num, fixed_float}
use swing_x.Core.Horizon.{swing_profile}
use swing_x.Store.{Tables, BarRow, bar_row}
use swing_x.Features.Events.{Calendar}
use swing_x.Search.Window.{features_at, build_window}
use swing_x.Search.Window.Known.{IsKnownPoint, features_at-agrees, build_window-IsKnownPoint}

abbrev pub calendar : Calendar
calendar = record {
  date_naive = λ ts. ts;
  from_ymd = λ y m d. some (y * 360 + m * 30 + d);
  year = λ d. d;
  month = λ d. d;
  weekday = λ d. (d + 3) % 7;
}

-- A stand-in for the logarithm: it only has to be some function.
abbrev pub identity : Fixed → Fixed
identity x = x

abbrev row : ℕ → BarRow Fixed
row ts = bar_row "daily" "fmp" (record {
  ticker = "SPY";
  ts = ts;
  open_px = num (pos (ts * 100));
  high = num (pos (ts * 100));
  low = num (pos (ts * 100));
  close = num (pos (ts * 100));
  volume = num (pos 100);
})

abbrev pub today : Tables Fixed
today = record { bars = row 1 ∷ row 2 ∷ []; features = []; macros = []; regimes = [] }

abbrev tomorrow : Tables Fixed
tomorrow = record today { bars = row 3 ∷ row 1 ∷ row 2 ∷ [] }

features_at-agrees_example :
    features_at identity calendar today "SPY" 2 ≡ features_at identity calendar tomorrow "SPY" 2
features_at-agrees_example = features_at-agrees identity calendar today tomorrow "SPY" 2 refl

build_window-IsKnownPoint_example :
    let w = build_window identity calendar tomorrow "SPY" 1 3 swing_profile in
    All (IsKnownPoint identity calendar tomorrow "SPY" w.bars) w.points
build_window-IsKnownPoint_example =
    build_window-IsKnownPoint identity calendar tomorrow "SPY" 1 3 swing_profile

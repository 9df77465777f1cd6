-- ===== src/Regime/Engine/Tests.antt =====
-- Two bars of one ticker, labelled, and the theorem at them.
use swing_x.Prelude.{ℕ, ◌*◌, ◌≡◌, refl, [], ◌∷◌, length}
use swing_x.Prelude.Int.{pos}
use swing_x.Prelude.Results.{ok}
use swing_x.Float.Fixed.{Fixed, num, fixed_float}
use swing_x.Core.Market.{Bar}
use swing_x.Regime.{default_config}
use swing_x.Store.{Tables, MacroWrite, bar_row, end_of_day}
use swing_x.Store.Pit.{
  pit, bars_for, macro_value_as_of, macro_history, order_by, insert_sorted, distinct_on,
}
use swing_x.Features.RegimeLayer.{compute_regime, pct_change}
use swing_x.Search.Window.{stored_bar_ts}
use swing_x.Regime.Engine.{label_window}
use swing_x.Regime.Engine.Labels.{labels_at, label_window-labels_at}

abbrev bar : ℕ → Bar Fixed
bar ts = record {
  ticker = "SPY";
  ts = ts;
  open_px = num (pos (ts * 100));
  high = num (pos (ts * 100));
  low = num (pos (ts * 100));
  close = num (pos (ts * 100));
  volume = num (pos 100);
}

-- Known from the second bar on.
abbrev vvix : MacroWrite Fixed
vvix = record {
  series = "vvix";
  ts = 2;
  as_of = 2;
  value = num (pos 850_000);
  lead_time = end_of_day;
  source = "fmp";
}

abbrev db : Tables Fixed
db = record {
  bars = bar_row "daily" "fmp" (bar 1) ∷ bar_row "daily" "fmp" (bar 2) ∷ [];
  features = [];
  macros = vvix ∷ [];
  regimes = [];
}

abbrev same : Fixed → Fixed
same x = x

-- The first bar has no regime features yet.
one_label :
    length (labels_at same same default_config db "SPY" (stored_bar_ts db "SPY" 0 9 "daily")) ≡ 1
unfolding labels_at stored_bar_ts compute_regime pct_change pit bars_for macro_value_as_of
    macro_history order_by insert_sorted distinct_on
one_label = refl

label_window-labels_at_example :
    (label_window same same default_config "SPY" 0 9 db).0
    ≡ ok (labels_at same same default_config db "SPY" (stored_bar_ts db "SPY" 0 9 "daily"))
label_window-labels_at_example = label_window-labels_at same same default_config db "SPY" 0 9

-- ===== src/Journal/Tests.antt =====
-- A trade and the statistics of three, and the theorems at them.
use swing_x.Prelude.{ℕ, ◌*◌, ◌≡◌, refl, none, List, [], ◌∷◌}
use swing_x.Prelude.Int.{pos, negsuc}
use swing_x.Float.Fixed.{Fixed, num, fixed_float}
use swing_x.Core.Market.{Side, Bar}
use swing_x.Core.Horizon.{Horizon, HorizonProfile, swing_profile}
use swing_x.Regime.{RegimeLabel}
use swing_x.Signals.{Signal}
use swing_x.Journal.{PaperTrade, load_forward_bars, by_time, fill_at}

abbrev cents : ℕ → Fixed
cents n = num (pos (n * 100))

abbrev candle : ℕ → ℕ → ℕ → ℕ → Bar Fixed
candle ts high low close = record {
  ticker = "SPY";
  ts = ts;
  open_px = cents close;
  high = cents high;
  low = cents low;
  close = cents close;
  volume = cents 100;
}

-- The table is in no order.
abbrev table : List (Bar Fixed)
table =
    candle 12 10_300 9_800 10_000
    ∷ candle 9 10_050 9_950 10_000
    ∷ candle 11 10_150 9_950 10_050
    ∷ candle 10 10_000 9_900 10_000
    ∷ []

abbrev profile : HorizonProfile Fixed
profile = record swing_profile { max_hold_bars = 2; atr_lookback = 1 }

abbrev signal : Signal Fixed
signal = record {
  id = 3;
  strategy_id = 7;
  ticker = "SPY";
  side = Side.long;
  decision_ts = 10;
  horizon = Horizon.swing;
  entry = cents 10_000;
  stop = cents 9_900;
  target1 = cents 10_200;
  target2 = none;
  rr1 = num (pos 20_000);
  rr2 = none;
  conviction = num (pos 6_000);
  cohort_n = 120;
  regime = RegimeLabel.risk_on;
  regime_desc = "risk_on";
  why = [];
  invalidation = "stop";
  cohort_expectancy = num (pos 3_000);
  cvar5 = num (negsuc 9_999);
  lead_time = "next";
}

abbrev bars : List (Bar Fixed)
bars =
    candle 9 10_050 9_950 10_000
    ∷ candle 10 10_000 9_900 10_000
    ∷ candle 11 10_150 9_950 10_050
    ∷ candle 12 10_300 9_800 10_000
    ∷ []

loaded : load_forward_bars table "SPY" 10 profile ≡ bars
unfolding load_forward_bars by_time
loaded = refl

abbrev trade : PaperTrade Fixed
trade = fill_at 1 signal profile bars 2 (candle 11 10_150 9_950 10_050)

abbrev pnls : List Fixed
pnls = num (pos 20_000) ∷ num (negsuc 9_999) ∷ num (pos 5_000) ∷ []

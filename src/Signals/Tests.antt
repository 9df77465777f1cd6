-- ===== src/Signals/Tests.antt =====
-- A desk with one ticker, and the theorems at its signal.
use swing_x.Prelude.{◌≡◌, refl, true, none, some, List, [], ◌∷◌, String}
use swing_x.Prelude.Int.{pos}
use swing_x.Prelude.Results.{ok, err}
use swing_x.Float.Fixed.{Fixed, num, fixed_float}
use swing_x.Core.Layer.{Layer}
use swing_x.Core.Market.{Side, Bar}
use swing_x.Core.Horizon.{Horizon, HorizonProfile, swing_profile, for_horizon}
use swing_x.Core.Genome.{CmpOp, StrategyStatus, Strategy, fires, new as new_genome}
use swing_x.Core.Risk.{
  from_profile, stop_distance, risk_distance, stop_price, target_distance, target_prices,
}
use swing_x.Regime.{
  classify, core_count, out_of_bounds, classify_known, scores, candidates, rank, softmax,
  insert_ranked,
}
use swing_x.Signals.{
  first_release, new, Signal, StoredOosScore, Desk, with_ratios, draft, build_signal_for,
  earnings_blackout,
}
use swing_x.Signals.Executable.{IsExecutable, build_signal_for-IsExecutable}

abbrev features : List (String × Fixed)
features =
    ("regime.rv_percentile", num (pos 2_000))
    ∷ ("regime.vix_vix3m", num (pos 9_000))
    ∷ ("regime.vvix", num (pos 850_000))
    ∷ ("trigger.rsi14", num (pos 600_000))
    ∷ []

abbrev bar : Bar Fixed
bar = record {
  ticker = "SPY";
  ts = 100;
  open_px = num (pos 1_000_000);
  high = num (pos 1_010_000);
  low = num (pos 990_000);
  close = num (pos 1_000_000);
  volume = num (pos 10_000);
}

abbrev score : StoredOosScore Fixed
score = record {
  dsr = some (num (pos 9_000));
  pbo = some (num (pos 2_000));
  oos_expectancy_cost_aware = some (num (pos 3_000));
  profit_factor = none;
  cvar5 = none;
  mar = none;
  n_regimes_positive = pos 3;
  passed_gate = true;
  n_entries = 120;
  precision_oos = some (num (pos 6_000));
  recall_oos = none;
  act_threshold = none;
  n_acted = some (pos 5);
  precision_forward = none;
  expectancy_forward = none;
  n_forward = none;
}

-- The next release is a day after the holding window; a time is its day.
abbrev desk : Desk Fixed
desk = record {
  features_at_latest = λ ticker. some (features, bar, some (num (pos 10_000)));
  earnings = ("SPY", 103) ∷ ("SPY", 90) ∷ [];
  latest_oos_score = λ id. some score;
  date_naive = λ ts. ts;
  new_id = λ id ticker. id;
  detail_text = λ p observed. p.feature_key;
  invalidation_text = λ side stop. "stop";
  precision_text = λ n. "measured";
  lead_text = λ label tau. label;
  exp = λ x. x;
}

abbrev profile : HorizonProfile Fixed
profile = record swing_profile { max_hold_bars = 1 }

abbrev strategy : Strategy Fixed
strategy = record {
  id = 7;
  genome = new_genome Side.long Horizon.swing (
      record {
        layer = Layer.trigger;
        feature_key = "trigger.rsi14";
        op = CmpOp.gt;
        threshold = num (pos 400_000);
      }
      ∷ []);
  status = StrategyStatus.promoted;
  generation = 0;
  parent = none;
}

abbrev signal : Signal Fixed
signal = with_ratios (draft desk strategy "SPY" profile features bar (num (pos 10_000)) score)

sent : build_signal_for desk strategy "SPY" profile ≡ ok signal
unfolding build_signal_for fires new_genome classify core_count out_of_bounds classify_known scores
    candidates rank softmax insert_ranked first_release new stop_price stop_distance from_profile
    for_horizon risk_distance target_distance target_prices
sent = refl

-- With two bars to hold, the release is in the window.
blacked_out :
    build_signal_for desk strategy "SPY" (record profile { max_hold_bars = 2 })
    ≡ err (earnings_blackout 103)
unfolding build_signal_for fires new_genome classify core_count out_of_bounds classify_known scores
    candidates rank softmax insert_ranked first_release
blacked_out = refl

build_signal_for-IsExecutable_example : IsExecutable desk strategy "SPY" profile signal
build_signal_for-IsExecutable_example =
    build_signal_for-IsExecutable desk strategy "SPY" profile signal sent

-- ===== src/Search/Score/Tests.antt =====
-- A score, a promotion and a selection, and the theorems at them.
use swing_x.Prelude.{◌≡◌, refl, true, false, some, [], ◌∷◌}
use swing_x.Prelude.Int.{pos, negsuc}
use swing_x.Float.Fixed.{Fixed, num, fixed_float, sqrt_fixed}
use swing_x.Core.Layer.{Layer}
use swing_x.Core.Market.{Side}
use swing_x.Core.Horizon.{Horizon}
use swing_x.Core.Genome.{CmpOp, Genome, StrategyStatus, new, new_strategy}
use swing_x.Validation.{ValidationResult, evaluate}
use swing_x.Monitor.Store.{StrategyRow}
use swing_x.Search.Score.{OosScore, Evaluated, from_validation, promotable, wilson_lower_bound}
use swing_x.Search.Score.Promotion.{IsEarned, promotable-IsEarned}
use swing_x.Search.Survivors.{select_one, select_survivors}

abbrev pub result : ValidationResult Fixed
result = record {
  dsr = num (pos 9_000);
  pbo = num (pos 2_000);
  oos_expectancy_cost_aware = num (pos 3_000);
  profit_factor = num (pos 15_000);
  cvar5 = num (negsuc 9_999);
  mar = num (pos 10_000);
  regime_contrib = [];
  n_regimes_positive = pos 3;
  passed_gate = false;
  precision_oos = num (pos 7_000);
  recall_oos = num (pos 5_000);
  act_threshold = num (pos 5_000);
  n_acted_oos = pos 60;
  precision_forward = num (pos 6_000);
  expectancy_forward = num (pos 1_000);
  n_forward = pos 20;
}

abbrev score : OosScore Fixed
score = from_validation 7 result (evaluate result) 120

-- The same metrics in one regime only.
abbrev narrow : OosScore Fixed
narrow =
    let v : ValidationResult Fixed = record result { n_regimes_positive = pos 1 } in
    from_validation 8 v (evaluate v) 120

abbrev pub genome : Genome Fixed
genome = new Side.long Horizon.swing (
    record {
      layer = Layer.trigger;
      feature_key = "trigger.rsi14";
      op = CmpOp.gt;
      threshold = num (pos 400_000);
    }
    ∷ [])

abbrev pub member : Evaluated Fixed
member = record { strategy = new_strategy 7 genome; score = some score; n_entries = 120 }

member_is_promotable : promotable member ≡ true
unfolding promotable wilson_lower_bound evaluate sqrt_fixed new_strategy new
member_is_promotable = refl

promotable-IsEarned_example :
    (s : OosScore Fixed) × (member.score ≡ some s) × IsEarned member.strategy.genome s
promotable-IsEarned_example = promotable-IsEarned member refl member_is_promotable

abbrev row : StrategyRow
row = record { strategy_id = 7; status = StrategyStatus.candidate }

abbrev promoted_row : StrategyRow
promoted_row = record row { status = StrategyStatus.promoted }

selected : (select_survivors (member ∷ []) (row ∷ [])).1 ≡ promoted_row ∷ []
unfolding select_survivors select_one promotable wilson_lower_bound evaluate sqrt_fixed new_strategy
    new
selected = refl

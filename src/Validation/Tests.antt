-- ===== src/Validation/Tests.antt =====
-- The gate and the harness on one result, and the theorems at it.
use swing_x.Prelude.{◌≡◌, refl, ◌↔◌, Bool, true, false, none, some, [], ◌∷◌, is_empty, All, String}
use swing_x.Prelude.Results.{ok}
use swing_x.Prelude.Int.{pos, negsuc}
use swing_x.Float.Fixed.{Fixed, num, fixed_float}
use swing_x.Core.Horizon.{Horizon, swing_profile, as_str}
use swing_x.Validation.{ValidationResult, evaluate, evaluate_opt}
use swing_x.Validation.Gate.{Clears, IsBorneOut, evaluate_opt_iff, evaluate-reasons}
use swing_x.Validation.Harness.{
  Worker, from_profile, evaluate_or_fail_closed, evaluate_or_fail_closed_iff,
}

-- Good metrics in one regime only: the worker's verdict is not believed.
abbrev one_regime : ValidationResult Fixed
one_regime = record {
  dsr = num (pos 9_000);
  pbo = num (pos 2_000);
  oos_expectancy_cost_aware = num (pos 3_000);
  profit_factor = num (pos 15_000);
  cvar5 = num (negsuc 9_999);
  mar = num (pos 10_000);
  regime_contrib = [];
  n_regimes_positive = pos 1;
  passed_gate = true;
  precision_oos = num (pos 7_000);
  recall_oos = num (pos 5_000);
  act_threshold = num (pos 5_000);
  n_acted_oos = pos 60;
  precision_forward = num (pos 6_000);
  expectancy_forward = num (pos 1_000);
  n_forward = pos 20;
}

rejected : (evaluate one_regime).passed ≡ false
unfolding evaluate
rejected = refl

evaluate_opt_iff_example :
    ((evaluate_opt (some one_regime)).passed ≡ true)
    ↔ ((r : ValidationResult Fixed) × (some one_regime ≡ some r) × Clears r)
evaluate_opt_iff_example = evaluate_opt_iff (some one_regime)

evaluate-reasons_example :
    (((evaluate one_regime).passed ≡ true) ↔ (is_empty (evaluate one_regime).reasons ≡ true))
    × All (IsBorneOut one_regime) (evaluate one_regime).reasons
evaluate-reasons_example = evaluate-reasons one_regime

-- A worker that writes every dataset to one place and gives every request the same answer.
abbrev worker : Worker Bool Bool Fixed
worker = record {
  write_dataset = λ rows name. ok "/tmp/rows";
  validate = λ req. ok one_regime;
  describe = λ e. "error";
}

evaluate_or_fail_closed_iff_example :
    ((evaluate_or_fail_closed worker (true ∷ []) swing_profile "rows" 8 2 1).passed ≡ true) ↔ (
      (uri : String) × (r : ValidationResult Fixed) × (worker.write_dataset (true ∷ []) "rows"
        ≡ ok uri)
      × (worker.validate (record {
        dataset_uri = uri;
        horizon = as_str Horizon.swing;
        fold_spec = from_profile {F = Fixed} swing_profile 8 2;
        n_trials = 1;
        n_search_trials = 1;
        forward_boundary_ts = none;
      })
          ≡ ok r)
      × Clears r)
evaluate_or_fail_closed_iff_example =
    evaluate_or_fail_closed_iff worker (true ∷ []) swing_profile "rows" 8 2 1

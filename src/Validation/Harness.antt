-- ===== src/Validation/Harness.antt =====
-- The harness of crates/se-validation/src/harness.rs, with the request types of
-- crates/se-mlclient/src/contract.rs. The worker and the Parquet writer are a parameter.
use swing_x.Prelude.{ℕ, max, ◌≡◌, refl, ◌↔◌, Bool, true, Option, none, List, String, arith}
use Prim.Native.String.{◌++◌}
use swing_x.Prelude.Results.{Result, ok, err, ◌>>=◌, >>=-eq-ok}
use swing_x.Float.{Float}
use swing_x.Core.Horizon.{HorizonProfile, as_str}
use swing_x.Validation.{ValidationResult, GateDecision, fail_closed, evaluate}
use swing_x.Validation.Gate.{Clears, evaluate-Clears}

pub record FoldSpec : Type 0 where
  pub n_groups : ℕ
  pub k_test_groups : ℕ
  pub embargo_bars : ℕ
  pub purge : Bool

pub record ValidateRequest : Type 0 where
  pub dataset_uri : String
  pub horizon : String
  pub fold_spec : FoldSpec
  pub n_trials : ℕ
  pub n_search_trials : ℕ
  pub forward_boundary_ts : Option String

pub record EvaluateOptions : Type 0 where
  pub n_groups : ℕ
  pub k_test_groups : ℕ
  pub n_trials : ℕ
  pub n_search_trials : ℕ
  pub forward_boundary_ts : Option String

pub record HarnessOutcome (F : Type 0) : Type 0 where
  pub decision : GateDecision F
  pub validation : ValidationResult F
  pub dataset_uri : String

-- `write_dataset rows name` writes below the work directory and gives the path, `validate` posts a
-- request. `describe` is the text of an error.
pub record Worker (Row E F : Type 0) : Type 0 where
  pub write_dataset : List Row → String → Result E String
  pub validate : ValidateRequest → Result E (ValidationResult F)
  pub describe : E → String

abbrev pub default_options : EvaluateOptions
default_options = record {
  n_groups = 8;
  k_test_groups = 2;
  n_trials = 1;
  n_search_trials = 1;
  forward_boundary_ts = none;
}

module _ {F : Type 0} where
  abbrev pub from_profile : HorizonProfile F → ℕ → ℕ → FoldSpec
  from_profile profile n_groups k_test_groups = record {
    n_groups = n_groups;
    k_test_groups = k_test_groups;
    embargo_bars = profile.embargo_bars;
    purge = true;
  }

  abbrev pub request : HorizonProfile F → String → EvaluateOptions → ValidateRequest
  request profile uri opts = record {
    dataset_uri = uri;
    horizon = as_str profile.horizon;
    fold_spec = from_profile profile opts.n_groups opts.k_test_groups;
    n_trials = opts.n_trials;
    n_search_trials = max opts.n_search_trials 1;
    forward_boundary_ts = opts.forward_boundary_ts;
  }

module _ {Row E F : Type 0} ⦃f : Float F⦄ (w : Worker Row E F) where
  unfoldable pub evaluate_with :
      List Row → HorizonProfile F → String → EvaluateOptions → Result E (HarnessOutcome F)
  evaluate_with rows profile dataset_name opts = do
    uri ← w.write_dataset rows dataset_name
    validation ← w.validate (request profile uri opts)
    ok (record { decision = evaluate validation; validation = validation; dataset_uri = uri })

  -- `evaluate` of the harness.
  unfoldable pub evaluate_shape :
      List Row → HorizonProfile F → String → ℕ → ℕ → ℕ → Result E (HarnessOutcome F)
  evaluate_shape rows profile dataset_name n_groups k_test_groups n_trials =
      evaluate_with rows profile dataset_name (record default_options {
        n_groups = n_groups;
        k_test_groups = k_test_groups;
        n_trials = n_trials;
      })

  abbrev decide : Result E (HarnessOutcome F) → GateDecision F
  decide (ok outcome) = outcome.decision
  decide (err e) = fail_closed ("validation failed: " ++ w.describe e)

  unfoldable pub evaluate_or_fail_closed :
      List Row → HorizonProfile F → String → ℕ → ℕ → ℕ → GateDecision F
  unfolding evaluate_shape
  evaluate_or_fail_closed rows profile dataset_name n_groups k_test_groups n_trials =
      decide (evaluate_shape rows profile dataset_name n_groups k_test_groups n_trials)

  decide-passed :
      (m : Result E (HarnessOutcome F))
      → (decide m).passed ≡ true
      → (out : HarnessOutcome F) × (m ≡ ok out) × (out.decision.passed ≡ true)
  decide-passed (ok out) h = (out, refl, h)
  decide-passed (err e) h = cc

  -- The harness decides for a promotion exactly when the dataset was written and the worker answered the
  -- request made from the profile and the shape, with metrics that clear the four thresholds: an error of
  -- the writer or of the worker is never a pass.
  pub evaluate_or_fail_closed_iff :
      (rows : List Row) (profile : HorizonProfile F) (name : String)
      (n_groups k_test_groups n_trials : ℕ)
      → ((evaluate_or_fail_closed rows profile name n_groups k_test_groups n_trials).passed ≡ true)
        ↔ ((uri : String) × (r : ValidationResult F) × (w.write_dataset rows name ≡ ok uri)
            × (w.validate (record {
              dataset_uri = uri;
              horizon = as_str profile.horizon;
              fold_spec = from_profile profile n_groups k_test_groups;
              n_trials = n_trials;
              n_search_trials = 1;
              forward_boundary_ts = none;
            })
                ≡ ok r)
            × Clears r)
  unfolding evaluate_or_fail_closed evaluate_with
  evaluate_or_fail_closed_iff rows profile name n_groups k_test_groups n_trials = (
    λ h.
        let (out, all_ok, pass) = decide-passed _ h in
        let (uri, written, k) = >>=-eq-ok (w.write_dataset rows name) _ all_ok in
        let (r, answered, k') = >>=-eq-ok (w.validate _) _ k in
        (uri, r, written, answered, (evaluate-Clears r).0 (ground arith)),
    λ (uri, r, written, answered, clears). rw written (rw answered ((evaluate-Clears r).1 clears)),
  )

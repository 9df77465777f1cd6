-- ===== src/Validation.antt =====
-- The promotion gate of crates/se-validation/src/gate.rs, with the
-- `ValidationResult` of crates/se-mlclient/src/contract.rs. A reason is kept as the value that its text
-- prints.
pub mod Gate
pub mod Harness
pub mod Tests
use swing_x.Prelude.{
  ◌≡◌, Bool, true, false, not, ◌&&◌, Option, none, some, List, [], ◌∷◌, ◌++◌, String, if◌then◌else◌,
}
use swing_x.Prelude.Int.{ℤ, pos, leb_ℤ}
use swing_x.Float.{Float}

pub record ValidationResult (F : Type 0) : Type 0 where
  pub dsr : F
  pub pbo : F
  pub oos_expectancy_cost_aware : F
  pub profit_factor : F
  pub cvar5 : F
  pub mar : F
  pub regime_contrib : List (String × F)
  pub n_regimes_positive : ℤ
  pub passed_gate : Bool
  pub precision_oos : F
  pub recall_oos : F
  pub act_threshold : F
  pub n_acted_oos : ℤ
  pub precision_forward : F
  pub expectancy_forward : F
  pub n_forward : ℤ

-- Why a decision is negative: a metric that failed, or a text.
pub data Reason (F : Type 0) : Type 0 where
  dsr_low pbo_high expectancy_low : F → Reason F
  few_regimes : ℤ → Reason F
  message : String → Reason F

pub record GateDecision (F : Type 0) : Type 0 where
  pub passed : Bool
  pub dsr_ok : Bool
  pub pbo_ok : Bool
  pub expectancy_ok : Bool
  pub regime_ok : Bool
  pub reasons : List (Reason F)

abbrev pub min_positive_regimes : ℤ
min_positive_regimes = pos 2

module _ {F : Type 0} where
  abbrev pub fail_closed : String → GateDecision F
  fail_closed reason = record {
    passed = false;
    dsr_ok = false;
    pbo_ok = false;
    expectancy_ok = false;
    regime_ok = false;
    reasons = message reason ∷ [];
  }

  -- `if !ok { reasons.push(reason) }`
  abbrev pub push_unless : Bool → Reason F → List (Reason F) → List (Reason F)
  push_unless ok_flag reason reasons = if ok_flag then reasons else reasons ++ reason ∷ []

module _ {F : Type 0} ⦃f : Float F⦄ where
  open f use {of_ℕ, decimal, lt}

  abbrev pub dsr_min : F
  dsr_min = of_ℕ 0

  abbrev pub pbo_max : F
  pbo_max = decimal 5 1

  abbrev pub oos_expectancy_min : F
  oos_expectancy_min = of_ℕ 0

  unfoldable pub evaluate : ValidationResult F → GateDecision F
  evaluate r =
      let dsr_ok = lt dsr_min r.dsr in
      let pbo_ok = lt r.pbo pbo_max in
      let expectancy_ok = lt oos_expectancy_min r.oos_expectancy_cost_aware in
      let regime_ok = leb_ℤ min_positive_regimes r.n_regimes_positive in
      record {
        passed = dsr_ok && (pbo_ok && (expectancy_ok && regime_ok));
        dsr_ok = dsr_ok;
        pbo_ok = pbo_ok;
        expectancy_ok = expectancy_ok;
        regime_ok = regime_ok;
        reasons = push_unless regime_ok (few_regimes r.n_regimes_positive) (
            push_unless expectancy_ok (expectancy_low r.oos_expectancy_cost_aware)
              (push_unless pbo_ok (pbo_high r.pbo) (push_unless dsr_ok (dsr_low r.dsr) [])));
      }

  unfoldable pub evaluate_opt : Option (ValidationResult F) → GateDecision F
  evaluate_opt (some r) = evaluate r
  evaluate_opt none = fail_closed "no validation result (fail-closed)"

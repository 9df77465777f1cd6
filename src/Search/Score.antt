-- ===== src/Search/Score.antt =====
-- The scores of crates/se-search/src/score.rs.
pub mod Ranking
pub mod Promotion
pub mod Tests
use Prim.Native.Nat.{Ordering}
use swing_x.Prelude.{
  ℕ, ◌+◌, ◌-◌, ◌%◌, ◌^◌, min, max, ◌≡◌, Bool, true, false, not, ◌&&◌, ◌||◌, Option, none, some,
  List, [], ◌∷◌, String, ltb, leb, any, length, if◌then◌else◌,
}
use swing_x.Prelude.Int.{ℤ, pos, negsuc, leb_ℤ, magnitude, is_neg}
use swing_x.Prelude.Results.{Result, ok, err, ◌>>=◌}
use swing_x.Float.{Float, clamp}
use swing_x.Core.Horizon.{HorizonProfile}
use swing_x.Core.Genome.{Genome, Predicate, Strategy}
use swing_x.Search.Catalog.{is_actionable}
use swing_x.Validation.{ValidationResult, GateDecision}
use swing_x.Validation.Harness.{Worker, EvaluateOptions, evaluate_with}

abbrev pub min_entries_to_validate : ℕ
min_entries_to_validate = 40

abbrev pub min_acted_to_promote : ℕ
min_acted_to_promote = 8

pub record OosScore (F : Type 0) : Type 0 where
  pub strategy_id : ℕ
  pub dsr : F
  pub pbo : F
  pub oos_expectancy_cost_aware : F
  pub profit_factor : F
  pub cvar5 : F
  pub mar : F
  pub regime_contrib : List (String × F)
  pub n_regimes_positive : ℤ
  pub passed_gate : Bool
  pub gate : GateDecision F
  pub n_entries : ℕ
  pub precision_oos : F
  pub recall_oos : F
  pub act_threshold : F
  pub n_acted_oos : ℤ
  pub precision_forward : F
  pub expectancy_forward : F
  pub n_forward : ℤ

pub record ScoreConfig : Type 0 where
  pub n_groups : ℕ
  pub k_test_groups : ℕ
  pub n_trials : ℕ
  pub n_search_trials : ℕ

-- `n as usize` of a signed 64-bit integer, which wraps below zero.
abbrev pub as_usize : ℤ → ℕ
as_usize n = if is_neg n then 2 ^ 64 - magnitude n else magnitude n

abbrev pub reverse : Ordering → Ordering
reverse Ordering.lt = Ordering.gt
reverse Ordering.eq = Ordering.eq
reverse Ordering.gt = Ordering.lt

-- The order of a tuple: the next component where this one is equal.
abbrev pub then_cmp : Option Ordering → Option Ordering → Option Ordering
then_cmp (some Ordering.eq) next = next
then_cmp o next = o

abbrev pub cmp_bool : Bool → Bool → Option Ordering
cmp_bool false true = some Ordering.lt
cmp_bool true false = some Ordering.gt
cmp_bool _ _ = some Ordering.eq

abbrev pub or_equal : Option Ordering → Ordering
or_equal none = Ordering.eq
or_equal (some o) = o

module _ {F : Type 0} where
  abbrev pub from_validation : ℕ → ValidationResult F → GateDecision F → ℕ → OosScore F
  from_validation strategy_id validation gate n_entries = record {
    strategy_id = strategy_id;
    dsr = validation.dsr;
    pbo = validation.pbo;
    oos_expectancy_cost_aware = validation.oos_expectancy_cost_aware;
    profit_factor = validation.profit_factor;
    cvar5 = validation.cvar5;
    mar = validation.mar;
    regime_contrib = validation.regime_contrib;
    n_regimes_positive = validation.n_regimes_positive;
    passed_gate = gate.passed;
    gate = gate;
    n_entries = n_entries;
    precision_oos = validation.precision_oos;
    recall_oos = validation.recall_oos;
    act_threshold = validation.act_threshold;
    n_acted_oos = validation.n_acted_oos;
    precision_forward = validation.precision_forward;
    expectancy_forward = validation.expectancy_forward;
    n_forward = validation.n_forward;
  }

  abbrev pub genome_has_actionable_predicate : Genome F → Bool
  genome_has_actionable_predicate g = any (λ p. is_actionable p.layer) g.predicates

-- A member of the population that was evaluated, of crates/se-search/src/population.rs.
pub record Evaluated (F : Type 0) : Type 0 where
  pub strategy : Strategy F
  pub score : Option (OosScore F)
  pub n_entries : ℕ

module _ {F : Type 0} ⦃f : Float F⦄ where
  open f use {of_ℕ, decimal, lt, le, add, sub, mul, div, neg, sqrt, is_finite}

  abbrev pub wilson_z_95 : F
  wilson_z_95 = decimal 196 2

  abbrev pub min_promote_precision_lb : F
  min_promote_precision_lb = decimal 45 2

  unfoldable pub wilson_lower_bound : F → ℤ → F → F
  wilson_lower_bound p n z =
      let m = of_ℕ (magnitude n) in
      let q = clamp p (of_ℕ 0) (of_ℕ 1) in
      let z2 = mul z z in
      let denom = add (of_ℕ 1) (div z2 m) in
      let centre = add q (div z2 (mul (of_ℕ 2) m)) in
      let spread = div (mul q (sub (of_ℕ 1) q)) m in
      let margin = mul z (sqrt (add spread (div z2 (mul (mul (of_ℕ 4) m) m)))) in
      if leb_ℤ n (pos 0) || not (is_finite p)
      then of_ℕ 0
      else clamp (div (sub centre margin) denom) (of_ℕ 0) (of_ℕ 1)

  unfoldable pub is_survivor : OosScore F → Bool
  is_survivor s =
      if s.passed_gate
      then true
      else lt (of_ℕ 0) s.oos_expectancy_cost_aware && (lt (of_ℕ 0) s.dsr && lt s.pbo (decimal 5 1))

  -- `f64::partial_cmp`.
  unfoldable pub partial_cmp : F → F → Option Ordering
  partial_cmp a b =
      if lt a b
      then some Ordering.lt
      else if lt b a
      then some Ordering.gt
      else if le a b
      then some Ordering.eq
      else none

  abbrev pub cmp_key : OosScore F → OosScore F → Option Ordering
  cmp_key a b = then_cmp (cmp_bool a.passed_gate b.passed_gate) (
      then_cmp (partial_cmp a.oos_expectancy_cost_aware b.oos_expectancy_cost_aware)
        (then_cmp (partial_cmp a.dsr b.dsr) (partial_cmp (neg a.pbo) (neg b.pbo))))

  -- Best first: `b.partial_cmp(&a).unwrap_or(Equal)`.
  unfoldable pub cmp_best_first : OosScore F → OosScore F → Ordering
  cmp_best_first a b = or_equal (cmp_key b a)

  abbrev pub survives_by : Option (OosScore F) → Bool
  survives_by none = false
  survives_by (some s) = is_survivor s

  abbrev pub promotable_by : Genome F → Option (OosScore F) → Bool
  promotable_by g none = false
  promotable_by g (some s) =
      s.passed_gate
      && (genome_has_actionable_predicate g
          && (leb min_acted_to_promote (as_usize s.n_acted_oos)
              && le min_promote_precision_lb
                  (wilson_lower_bound s.precision_oos s.n_acted_oos wilson_z_95)))

  unfoldable pub survives : Evaluated F → Bool
  survives ev = survives_by ev.score

  unfoldable pub promotable : Evaluated F → Bool
  promotable ev = promotable_by ev.strategy.genome ev.score

-- The options of a validation, with the shape that the number of rows allows.
abbrev pub options_for : ScoreConfig → ℕ → EvaluateOptions
options_for cfg n =
    let n_groups = max (min cfg.n_groups (n % 2 ^ 32)) 2 in
    record {
      n_groups = n_groups;
      k_test_groups = max (min cfg.k_test_groups (n_groups - 1)) 1;
      n_trials = cfg.n_trials;
      n_search_trials = max cfg.n_search_trials 1;
      forward_boundary_ts = none;
    }

-- `name` is the dataset's, made from the strategy's identity.
unfoldable pub score_oos :
    {Row E F : Type 0} ⦃f : Float F⦄
    → Worker Row E F
    → ℕ
    → String
    → List Row
    → HorizonProfile F
    → ScoreConfig
    → Result E (Option (OosScore F))
score_oos w strategy_id name rows profile cfg =
    if ltb (length rows) min_entries_to_validate then ok none else do
      outcome ← evaluate_with w rows profile name (options_for cfg (length rows))
      ok (some (from_validation strategy_id outcome.validation outcome.decision (length rows)))

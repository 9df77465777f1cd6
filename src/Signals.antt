-- ===== src/Signals.antt =====
-- crates/se-signal (lib.rs and conviction.rs) and the `Signal` of crates/se-core/src/signal.rs. What the
-- store and the feature modules answer is a parameter, as are the texts made with formatted numbers.
pub mod Executable
pub mod Universe
pub mod Tests
use Prim.Native.Nat.{◌/◌}
use mathlib.Core.Option
use swing_x.Prelude.{
  ℕ, ◌+◌, ◌*◌, max, Bool, true, false, ◌&&◌, Option, none, some, List, [], ◌∷◌, ◌++◌, map, String,
  leb, ltb, ◌==◌, if◌then◌else◌, length, is_empty, lookup, not, str_eq, contains,
}
use swing_x.Prelude.Int.{ℤ}
use swing_x.Prelude.Results.{Result, ok, err, or_fail, guard, ◌>>=◌, ◌>>◌}
use swing_x.Float.{Float, clamp}
use swing_x.Core.Layer.{Layer}
use swing_x.Core.Market.{Bar, Side}
use swing_x.Core.Horizon.{Horizon, HorizonProfile}
use swing_x.Core.Risk.{stop_price, target_prices}
use swing_x.Core.Genome.{CmpOp, Predicate, Genome, Features, Strategy, fires}
use swing_x.Regime.{RegimeLabel, as_str, is_tradeable, default_config, classify}
use swing_x.Search.Score.{as_usize, min_acted_to_promote, wilson_lower_bound, wilson_z_95}

pub record Driver (F : Type 0) : Type 0 where
  pub layer : Layer
  pub key : String
  pub contribution : F
  pub detail : String

pub record Signal (F : Type 0) : Type 0 where
  pub id : ℕ
  pub strategy_id : ℕ
  pub ticker : String
  pub side : Side
  pub decision_ts : ℕ
  pub horizon : Horizon
  pub entry : F
  pub stop : F
  pub target1 : F
  pub target2 : Option F
  pub rr1 : F
  pub rr2 : Option F
  pub conviction : F
  pub cohort_n : ℕ
  pub regime : RegimeLabel
  pub regime_desc : String
  pub why : List (Driver F)
  pub invalidation : String
  pub cohort_expectancy : F
  pub cvar5 : F
  pub lead_time : String

-- The refusals of `Signal::new`.
pub data Refusal : Type 0 where
  price_not_finite : Refusal
  no_attribution : Refusal
  zero_risk : Refusal
  inconsistent_side : Refusal

pub data NoSignal (F : Type 0) : Type 0 where
  no_bars : NoSignal F
  not_firing : NoSignal F
  regime_not_tradeable : NoSignal F
  no_atr : NoSignal F
  no_oos_score : NoSignal F
  geometry_refused : Refusal → NoSignal F
  earnings_blackout : ℕ → NoSignal F
  low_precision : F → NoSignal F

pub record Conviction (F : Type 0) : Type 0 where
  pub value : F
  pub label : String

-- A row of `oos_scores`, but for the JSON of its regimes.
pub record StoredOosScore (F : Type 0) : Type 0 where
  pub dsr : Option F
  pub pbo : Option F
  pub oos_expectancy_cost_aware : Option F
  pub profit_factor : Option F
  pub cvar5 : Option F
  pub mar : Option F
  pub n_regimes_positive : ℤ
  pub passed_gate : Bool
  pub n_entries : ℕ
  pub precision_oos : Option F
  pub recall_oos : Option F
  pub act_threshold : Option F
  pub n_acted : Option ℤ
  pub precision_forward : Option F
  pub expectancy_forward : Option F
  pub n_forward : Option ℤ

-- What the store, the feature modules, the calendar and the formatter answer.
pub record Desk (F : Type 0) : Type 0 where
  pub features_at_latest : String → Option (Features F × Bar F × Option F)
  pub earnings : List (String × ℕ)
  pub latest_oos_score : ℕ → Option (StoredOosScore F)
  pub date_naive : ℕ → ℕ
  pub new_id : ℕ → String → ℕ
  pub detail_text : Predicate F → Option F → String
  pub invalidation_text : Side → F → String
  pub precision_text : ℤ → String
  pub lead_text : String → F → String
  pub exp : F → F

-- Trading days to calendar days.
abbrev pub blackout_days : ℕ → ℕ
blackout_days max_hold_bars = max ((max_hold_bars * 7 + 4) / 5) 1

abbrev pub in_window : String → ℕ → ℕ → String × ℕ → Bool
in_window ticker after until (t, date) = str_eq t ticker && (ltb after date && leb date until)

-- `ORDER BY date ASC LIMIT 1`
abbrev pub earlier : ℕ → Option ℕ → ℕ
earlier date none = date
earlier date (some d) = if leb date d then date else d

unfoldable pub first_release : String → ℕ → ℕ → List (String × ℕ) → Option ℕ
first_release ticker after until [] = none
first_release ticker after until (r ∷ rs) =
    let rest = first_release ticker after until rs in
    if in_window ticker after until r then some (earlier r.1 rest) else rest

module _ {F : Type 0} where
  abbrev pub earnings_in_holding_window : Desk F → String → ℕ → HorizonProfile F → Option ℕ
  earnings_in_holding_window desk ticker decision_ts profile =
      let decision_date = desk.date_naive decision_ts in
      first_release ticker decision_date (decision_date + blackout_days profile.max_hold_bars)
        desk.earnings

  abbrev pub or_default : F → Option F → F
  or_default x none = x
  or_default x (some y) = y

  abbrev pub no_release : Option ℕ → Result (NoSignal F) (Unit {0})
  no_release none = ok tt
  no_release (some date) = err (earnings_blackout date)

  abbrev pub refused : {A : Type 0} → Result Refusal A → Result (NoSignal F) A
  refused (ok x) = ok x
  refused (err why) = err (geometry_refused why)

module _ {F : Type 0} ⦃f : Float F⦄ where
  open f use {of_ℕ, decimal, lt, le, add, sub, mul, div, neg, abs, is_finite}

  abbrev pub min_live_precision : F
  min_live_precision = decimal 40 2

  abbrev pub ok_direction : Side → (entry stop target1 : F) → Bool
  ok_direction Side.long entry stop target1 = lt stop entry && lt entry target1
  ok_direction Side.short entry stop target1 = lt entry stop && lt target1 entry

  -- The two ratios of reward to risk.
  abbrev pub with_ratios : Signal F → Signal F
  with_ratios s =
      let ratio = λ (t : F). div (abs (sub t s.entry)) (abs (sub s.entry s.stop)) in
      record s { rr1 = ratio s.target1; rr2 = Option.map ratio s.target2 }

  -- `Signal::new` on the fields that are given to it, with the two ratios left to fill in.
  unfoldable pub new : Signal F → Result Refusal (Signal F)
  new s = do
    guard (is_finite s.entry && (is_finite s.stop && is_finite s.target1)) price_not_finite
    guard (not (is_empty s.why)) no_attribution
    guard (not (le (abs (sub s.entry s.stop)) (of_ℕ 0))) zero_risk
    guard (ok_direction s.side s.entry s.stop s.target1) inconsistent_side
    ok (with_ratios s)

  unfoldable pub from_cohort : F → F → Conviction F
  from_cohort oos_expectancy_r rr =
      let b = if is_finite rr && lt (of_ℕ 0) rr then rr else of_ℕ 1 in
      let raw = div (add oos_expectancy_r (of_ℕ 1)) (add b (of_ℕ 1)) in
      record {
        value = clamp raw (of_ℕ 0) (of_ℕ 1);
        label = "cohort-implied (OOS expectancy / R-geometry; not a fitted per-signal calibrator)";
      }

  unfoldable pub from_oos_precision : String → F → Conviction F
  from_oos_precision text precision = record {
    value = if is_finite precision then clamp precision (of_ℕ 0) (of_ℕ 1) else of_ℕ 0;
    label = text;
  }

  abbrev pub sign_of : CmpOp → F
  sign_of CmpOp.gt = of_ℕ 1
  sign_of CmpOp.gte = of_ℕ 1
  sign_of CmpOp.lt = neg (of_ℕ 1)
  sign_of CmpOp.lte = neg (of_ℕ 1)

  abbrev pub drivers_for : Desk F → Genome F → Features F → List (Driver F)
  drivers_for desk genome features =
      let n = of_ℕ (max (length genome.predicates) 1) in
      map
        (λ p. record {
          layer = p.layer;
          key = p.feature_key;
          contribution = div (sign_of p.op) n;
          detail = desk.detail_text p (lookup p.feature_key features);
        })
        genome.predicates

  -- The live floor, on the lower bound of a precision that was measured on enough trades.
  abbrev pub precision_floor : Option F → Option ℤ → Result (NoSignal F) (Unit {0})
  precision_floor (some p) (some n) =
      let lb = wilson_lower_bound p n wilson_z_95 in
      if leb min_acted_to_promote (as_usize n) && lt lb min_live_precision
      then err (low_precision lb)
      else ok tt
  precision_floor _ _ = ok tt

  abbrev pub conviction_of : Desk F → StoredOosScore F → F → Option F → Option ℤ → Conviction F
  conviction_of desk score rr (some p) (some n) =
      if leb min_acted_to_promote (as_usize n)
      then from_oos_precision (desk.precision_text n) p
      else from_cohort (or_default (of_ℕ 0) score.oos_expectancy_cost_aware) rr
  conviction_of desk score rr _ _ =
      from_cohort (or_default (of_ℕ 0) score.oos_expectancy_cost_aware) rr

  -- What is handed to `Signal::new`.
  abbrev pub draft :
      Desk F
      → Strategy F
      → String
      → HorizonProfile F
      → Features F
      → Bar F
      → F
      → StoredOosScore F
      → Signal F
  draft desk strategy ticker profile features bar atr score =
      let side = strategy.genome.side in
      let entry = bar.close in
      let stop = stop_price strategy.genome.risk entry atr side in
      let (target1, target2) = target_prices strategy.genome.risk entry atr side in
      let risk = abs (sub entry stop) in
      let rr1 = if lt (of_ℕ 0) risk then div (abs (sub target1 entry)) risk else of_ℕ 0 in
      let conviction = conviction_of desk score rr1 score.precision_oos score.n_acted in
      let regime = (classify desk.exp default_config features).label in
      record {
        id = desk.new_id strategy.id ticker;
        strategy_id = strategy.id;
        ticker = ticker;
        side = side;
        decision_ts = bar.ts;
        horizon = profile.horizon;
        entry = entry;
        stop = stop;
        target1 = target1;
        target2 = target2;
        rr1 = rr1;
        rr2 = none;
        conviction = conviction.value;
        cohort_n = score.n_entries;
        regime = regime;
        regime_desc = as_str regime;
        why = drivers_for desk strategy.genome features;
        invalidation = desk.invalidation_text side stop;
        cohort_expectancy = or_default (of_ℕ 0) score.oos_expectancy_cost_aware;
        cvar5 = or_default (of_ℕ 0) score.cvar5;
        lead_time = desk.lead_text conviction.label (or_default (decimal 5 1) score.act_threshold);
      }

  -- A signal, or the reason why there is none.
  unfoldable pub build_signal_for :
      Desk F → Strategy F → String → HorizonProfile F → Result (NoSignal F) (Signal F)
  build_signal_for desk strategy ticker profile = do
    (features, bar, atr_opt) ← or_fail (desk.features_at_latest ticker) no_bars
    guard (fires strategy.genome features) not_firing
    guard (is_tradeable (classify desk.exp default_config features).label) regime_not_tradeable
    no_release (earnings_in_holding_window desk ticker bar.ts profile)
    atr ← or_fail atr_opt no_atr
    score ← or_fail (desk.latest_oos_score strategy.id) no_oos_score
    precision_floor score.precision_oos score.n_acted
    refused (new (draft desk strategy ticker profile features bar atr score))

  abbrev pub emitted : Result (NoSignal F) (Signal F) → List (Signal F)
  emitted (ok s) = s ∷ []
  emitted (err why) = []

  -- The inner loop, over the universe.
  unfoldable pub signals_of : Desk F → HorizonProfile F → Strategy F → List String → List (Signal F)
  signals_of desk profile strategy [] = []
  signals_of desk profile strategy (ticker ∷ more) =
      emitted (build_signal_for desk strategy ticker profile)
      ++ signals_of desk profile strategy more

  -- The signals of the promoted strategies of the horizon, in the order of the loops.
  unfoldable pub generate_signals :
      Desk F → HorizonProfile F → List String → List (Strategy F) → List (Signal F)
  generate_signals desk profile universe [] = []
  generate_signals desk profile universe (strategy ∷ more) =
      signals_of desk profile strategy universe ++ generate_signals desk profile universe more

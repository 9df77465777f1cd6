-- ===== src/Regime.antt =====
-- The regime classifier of crates/se-regime/src/classifier.rs and `RegimeLabel` of
-- crates/se-core/src/regime.rs. The exponential is a parameter. The scores are gathered label by label, in
-- the order of the enumeration, which is the order of the map of the source.
pub mod Gate
pub mod Engine
pub mod Tests
use swing_x.Prelude.{
  ℕ, zero, suc, ◌+◌, ◌≡◌, Bool, true, false, not, ◌&&◌, ◌||◌, Option, none, some, List, [], ◌∷◌,
  map, String, ltb, if◌then◌else◌, length, all, any, keep_if, lookup,
}
use swing_x.Float.{Float, fmax}
use swing_x.Core.Genome.{Features}

pub data RegimeLabel : Type 0 where
  short_gamma long_gamma vol_expansion vol_compression risk_off risk_on : RegimeLabel
  transition out_of_distribution : RegimeLabel

abbrev pub as_str : RegimeLabel → String
as_str RegimeLabel.short_gamma = "short_gamma"
as_str RegimeLabel.long_gamma = "long_gamma"
as_str RegimeLabel.vol_expansion = "vol_expansion"
as_str RegimeLabel.vol_compression = "vol_compression"
as_str RegimeLabel.risk_off = "risk_off"
as_str RegimeLabel.risk_on = "risk_on"
as_str RegimeLabel.transition = "transition"
as_str RegimeLabel.out_of_distribution = "out_of_distribution"

abbrev pub is_tradeable : RegimeLabel → Bool
is_tradeable RegimeLabel.out_of_distribution = false
is_tradeable _ = true

pub record ClassifierConfig (F : Type 0) : Type 0 where
  pub min_core_inputs : ℕ
  pub rv_pctl_high : F
  pub rv_pctl_low : F
  pub backwardation_hi : F
  pub contango_lo : F
  pub hy_oas_wide : F
  pub hy_oas_tight : F
  pub vvix_high : F
  pub vvix_low : F
  pub trend_flat : F
  pub softmax_temp : F

pub record RegimeAssessment (F : Type 0) : Type 0 where
  pub label : RegimeLabel
  pub prob_map : List (RegimeLabel × F)
  pub confidence : F
  pub observed_inputs : ℕ

abbrev pub core_signals : List String
core_signals =
    "regime.rv_percentile" ∷ "regime.vix_vix3m" ∷ "regime.vvix" ∷ "regime.rv20"
    ∷ "regime.copper_gold" ∷ "regime.dxy_trend" ∷ []

abbrev pub opposed : RegimeLabel → RegimeLabel → Bool
opposed RegimeLabel.vol_expansion RegimeLabel.vol_compression = true
opposed RegimeLabel.vol_compression RegimeLabel.vol_expansion = true
opposed RegimeLabel.risk_off RegimeLabel.risk_on = true
opposed RegimeLabel.risk_on RegimeLabel.risk_off = true
opposed RegimeLabel.short_gamma RegimeLabel.long_gamma = true
opposed RegimeLabel.long_gamma RegimeLabel.short_gamma = true
opposed _ _ = false

module _ {F : Type 0} ⦃f : Float F⦄ where
  open f use {of_ℕ, decimal, infinity, lt, le, add, sub, div, neg, abs, is_finite}

  abbrev pub default_config : ClassifierConfig F
  default_config = record {
    min_core_inputs = 3;
    rv_pctl_high = decimal 80 2;
    rv_pctl_low = decimal 30 2;
    backwardation_hi = decimal 100 2;
    contango_lo = decimal 95 2;
    hy_oas_wide = decimal 50 1;
    hy_oas_tight = decimal 35 1;
    vvix_high = decimal 1100 1;
    vvix_low = decimal 900 1;
    trend_flat = decimal 5 3;
    softmax_temp = decimal 60 2;
  }

  -- A value that is there and finite.
  abbrev finite_only : Option F → Option F
  finite_only none = none
  finite_only (some v) = if is_finite v then some v else none

  abbrev pub get : Features F → String → Option F
  get features k = finite_only (lookup k features)

  abbrev is_some : Option F → Bool
  is_some none = false
  is_some (some v) = true

  unfoldable pub core_count : Features F → ℕ
  core_count features = length (keep_if (λ k. is_some (get features k)) core_signals)

  abbrev outside : F → F → Option F → Bool
  outside lo hi none = false
  outside lo hi (some v) = not (is_finite v) || (lt v lo || lt hi v)

  unfoldable pub out_of_bounds : Features F → Bool
  out_of_bounds features =
      outside (decimal 4 1) (decimal 30 1) (lookup "regime.vix_vix3m" features)
      || (outside (decimal 4 1) (decimal 30 1) (lookup "regime.vix9d_vix" features)
          || (outside (of_ℕ 0) (of_ℕ 1) (lookup "regime.rv_percentile" features)
              || (outside (of_ℕ 0) (decimal 50 1) (lookup "regime.rv20" features)
                  || outside (decimal 400 1) (decimal 2800 1) (lookup "regime.vvix" features))))

  abbrev at_least : F → Option F → Bool
  at_least b none = false
  at_least b (some x) = le b x

  abbrev at_most : F → Option F → Bool
  at_most b none = false
  at_most b (some x) = le x b

  abbrev above : F → Option F → Bool
  above b none = false
  above b (some x) = lt b x

  abbrev below : F → Option F → Bool
  below b none = false
  below b (some x) = lt x b

  -- The evidence that was added for one label, if any was.
  abbrev pub evidence : Option F → List (Bool × F) → Option F
  evidence score [] = score
  evidence none ((b, w) ∷ more) = evidence (if b then some (add (of_ℕ 0) w) else none) more
  evidence (some s) ((b, w) ∷ more) = evidence (some (if b then add s w else s)) more

  -- `score.entry(label)`: a label with no evidence has no entry.
  abbrev pub entries : List (RegimeLabel × Option F) → List (RegimeLabel × F)
  entries [] = []
  entries ((label, none) ∷ more) = entries more
  entries ((label, some s) ∷ more) = (label, s) ∷ entries more

  abbrev gamma_evidence : Option F → Bool → Bool → List (Bool × F)
  gamma_evidence none direct proxy = (proxy, decimal 6 1) ∷ []
  gamma_evidence (some sign) direct proxy = (direct, decimal 20 1) ∷ []

  unfoldable pub candidates : ClassifierConfig F → Features F → List (RegimeLabel × Option F)
  candidates cfg features =
      let rv_pctl = get features "regime.rv_percentile" in
      let vv3m = get features "regime.vix_vix3m" in
      let vvix = get features "regime.vvix" in
      let backwardation = at_least cfg.backwardation_hi vv3m in
      let contango = at_most cfg.contango_lo vv3m in
      let rv_high = at_least cfg.rv_pctl_high rv_pctl in
      let rv_low = at_most cfg.rv_pctl_low rv_pctl in
      let vvix_high = at_least cfg.vvix_high vvix in
      let vvix_low = at_most cfg.vvix_low vvix in
      let hy = get features "regime.hy_oas" in
      let credit_wide = at_least cfg.hy_oas_wide hy in
      let credit_tight = at_most cfg.hy_oas_tight hy in
      let copper_gold = get features "regime.copper_gold" in
      let dxy_trend = get features "regime.dxy_trend" in
      let cg_up = above cfg.trend_flat copper_gold in
      let cg_down = below (neg cfg.trend_flat) copper_gold in
      let dxy_up = above cfg.trend_flat dxy_trend in
      let dxy_down = below (neg cfg.trend_flat) dxy_trend in
      let sign = get features "regime.gex_sign" in
      let long = at_least (of_ℕ 0) sign in
      let short =
        evidence none (gamma_evidence sign (not long) ((rv_high || backwardation) && vvix_high)) in
      let one = decimal 10 1 in
      let half = decimal 5 1 in
      let most = decimal 75 2 in
      (RegimeLabel.short_gamma, short)
      ∷ (
        RegimeLabel.long_gamma,
        evidence none (gamma_evidence sign long (rv_low && (contango && vvix_low))),
      )
      ∷ (
        RegimeLabel.vol_expansion,
        evidence none ((rv_high, one) ∷ (backwardation, one) ∷ (vvix_high, half) ∷ []),
      )
      ∷ (
        RegimeLabel.vol_compression,
        evidence none ((rv_low, one) ∷ (contango, one) ∷ (vvix_low, half) ∷ []),
      )
      ∷ (
        RegimeLabel.risk_off,
        evidence none (
            (credit_wide, decimal 15 1)
            ∷ (backwardation, most)
            ∷ (cg_down, most)
            ∷ (dxy_up, half)
            ∷ (rv_high, half)
            ∷ []),
      )
      ∷ (
        RegimeLabel.risk_on,
        evidence none (
            (credit_tight, decimal 15 1)
            ∷ (contango, most)
            ∷ (cg_up, most)
            ∷ (dxy_down, half)
            ∷ (rv_low, half)
            ∷ []),
      )
      ∷ []

  unfoldable pub scores : ClassifierConfig F → Features F → List (RegimeLabel × F)
  scores cfg features = entries (candidates cfg features)

  abbrev pub max_of : F → List (RegimeLabel × F) → F
  max_of m [] = m
  max_of m ((l, v) ∷ more) = max_of (fmax m v) more

  abbrev pub sum_of : F → List (RegimeLabel × F) → F
  sum_of acc [] = acc
  sum_of acc ((l, v) ∷ more) = sum_of (add acc v) more

  -- The weight of a score below the top one, at a temperature, and its share of the total.
  abbrev pub weigh : (F → F) → F → F → RegimeLabel × F → RegimeLabel × F
  weigh exp top t (l, v) = (l, exp (div (sub v top) t))

  abbrev pub share : F → RegimeLabel × F → RegimeLabel × F
  share total (l, e) = (l, if lt (of_ℕ 0) total then div e total else of_ℕ 0)

  abbrev pub weights : (F → F) → List (RegimeLabel × F) → F → List (RegimeLabel × F)
  weights exp score temp =
      map (weigh exp (max_of (neg infinity) score) (if le temp (of_ℕ 0) then of_ℕ 1 else temp))
        score

  unfoldable pub softmax : (F → F) → List (RegimeLabel × F) → F → List (RegimeLabel × F)
  softmax exp score temp =
      let exps = weights exp score temp in map (share (sum_of (of_ℕ 0) exps)) exps

  -- Descending by probability; labels of one probability stay in the order of the enumeration.
  unfoldable pub insert_ranked : RegimeLabel × F → List (RegimeLabel × F) → List (RegimeLabel × F)
  insert_ranked x [] = x ∷ []
  insert_ranked x (y ∷ ys) =
      let rest = insert_ranked x ys in if lt x.1 y.1 then y ∷ rest else x ∷ y ∷ ys

  unfoldable pub rank : List (RegimeLabel × F) → List (RegimeLabel × F)
  rank [] = []
  rank (x ∷ xs) = insert_ranked x (rank xs)

  -- The label and the confidence. `transition` has no probability of its own, so the confidence of two
  -- opposed labels that are nearly tied is that of the first.
  abbrev pub decide : List (RegimeLabel × F) → RegimeLabel × F
  decide [] = (RegimeLabel.transition, of_ℕ 1)
  decide ((l1, p1) ∷ []) = (l1, p1)
  decide ((l1, p1) ∷ (l2, p2) ∷ more) =
      if le (abs (sub p1 p2)) (decimal 8 2) && opposed l1 l2
      then (RegimeLabel.transition, p1)
      else (l1, p1)

  abbrev pub certain : RegimeLabel → ℕ → RegimeAssessment F
  certain label observed = record {
    label = label;
    prob_map = (label, of_ℕ 1) ∷ [];
    confidence = of_ℕ 1;
    observed_inputs = observed;
  }

  unfoldable pub classify_known : (F → F) → ClassifierConfig F → Features F → ℕ → RegimeAssessment F
  classify_known exp cfg features observed =
      let score = scores cfg features in
      let prob_map = softmax exp score cfg.softmax_temp in
      let (label, confidence) = decide (rank prob_map) in
      if all (λ (l, v). le v (of_ℕ 0)) score
      then certain RegimeLabel.transition observed
      else record {
        label = label;
        prob_map = prob_map;
        confidence = confidence;
        observed_inputs = observed;
      }

  unfoldable pub classify : (F → F) → ClassifierConfig F → Features F → RegimeAssessment F
  classify exp cfg features =
      let observed = length (keep_if (λ (k, v). is_finite v) features) in
      if ltb (core_count features) cfg.min_core_inputs || out_of_bounds features
      then certain RegimeLabel.out_of_distribution observed
      else classify_known exp cfg features observed

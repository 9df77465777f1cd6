-- ===== src/Features/Tradeability.antt =====
-- The tradeability gate, crates/se-features/src/layer0_tradeability.rs. The number of holdings, which the gate
-- does not read, and the texts of its reasons are left out.
use swing_x.Prelude.{
  ℕ, ◌+◌, ◌*◌, ◌^◌, Bool, true, false, not, ◌||◌, Option, none, some, List, [], ◌∷◌, ◌++◌, map,
  String, if◌then◌else◌, is_empty,
}
use mathlib.Core.Option
use swing_x.Float.{Float, clamp, fmin}
use swing_x.Core.Layer.{Layer}
use swing_x.Core.Market.{Bar}
use swing_x.Store.{Feature}
use swing_x.Store.Pit.{Pit, bars, feature_value}
use swing_x.Features.{Hooks, GexSnapshot, feature_of, flag}
use swing_x.Features.Indicators.{dollar_adv, realized_vol}

pub record TradeabilityConfig (F : Type 0) : Type 0 where
  pub adv_floor : F
  pub adv_good : F
  pub aum_floor : F
  pub aum_good : F
  pub w_liquidity : F
  pub w_flow : F
  pub w_large_hand : F

pub record TradeabilityInput (F : Type 0) : Type 0 where
  pub symbol : String
  pub dollar_adv : F
  pub aum : Option F
  pub abs_gex : Option F
  pub options_oi : Option F
  pub realized_vol : F

pub record TradeabilityComponents (F : Type 0) : Type 0 where
  pub liquidity : F
  pub flow_capacity : F
  pub large_hand : F
  pub large_hand_observed : Bool

pub data GateReason (F : Type 0) : Type 0 where
  low_adv : F → F → GateReason F
  low_aum : F → F → GateReason F
  aum_unavailable : GateReason F
  large_hand_unobserved : GateReason F

pub record TradeabilityScore (F : Type 0) : Type 0 where
  pub symbol : String
  pub score : F
  pub passed : Bool
  pub components : TradeabilityComponents F
  pub reasons : List (GateReason F)

abbrev pub lookback : ℕ
lookback = 20

module _ {F : Type 0} ⦃f : Float F⦄ where
  open f use {of_ℕ, decimal, lt, le, add, sub, mul, div}

  abbrev pub default_gate : TradeabilityConfig F
  default_gate = record {
    adv_floor = of_ℕ 50_000_000;
    adv_good = of_ℕ 1_000_000_000;
    aum_floor = of_ℕ 500_000_000;
    aum_good = of_ℕ 10_000_000_000;
    w_liquidity = decimal 40 2;
    w_flow = decimal 35 2;
    w_large_hand = decimal 25 2;
  }

  abbrev pub clamp01 : F → F
  clamp01 x = clamp x (of_ℕ 0) (of_ℕ 1)

  unfoldable pub log_scale : (F → F) → F → F → F → F
  log_scale ln value floor good =
      if le value (of_ℕ 0) || (le floor (of_ℕ 0) || le good floor)
      then of_ℕ 0
      else clamp01 (div (sub (ln value) (ln floor)) (sub (ln good) (ln floor)))

  -- The positioning of the large hand, and whether it was observed.
  abbrev pub large_hand_of : Option F → Option F → F → F × Bool
  large_hand_of (some gex) oi liquidity = (clamp01 (div gex (of_ℕ (5 * 10 ^ 9))), true)
  large_hand_of none (some oi) liquidity = (clamp01 (div oi (of_ℕ (2 * 10 ^ 6))), true)
  large_hand_of none none liquidity = (fmin liquidity (decimal 5 1), false)

  abbrev pub below_floor : F → Option F → Bool
  below_floor floor none = true
  below_floor floor (some a) = lt a floor

  abbrev pub aum_reason : F → Option F → List (GateReason F)
  aum_reason floor none = aum_unavailable ∷ []
  aum_reason floor (some a) = if lt a floor then low_aum a floor ∷ [] else []

  unfoldable pub evaluate_gate :
      (F → F) → TradeabilityConfig F → TradeabilityInput F → TradeabilityScore F
  evaluate_gate ln c input =
      let liquidity = log_scale ln input.dollar_adv c.adv_floor c.adv_good in
      let aum : F = elim input.aum [ none ↦ of_ℕ 0 | some a ↦ a ] in
      let flow_capacity = log_scale ln aum c.aum_floor c.aum_good in
      let (large_hand, observed) = large_hand_of input.abs_gex input.options_oi liquidity in
      record {
        symbol = input.symbol;
        score = clamp01 (
            add (add (mul c.w_liquidity liquidity) (mul c.w_flow flow_capacity))
              (mul c.w_large_hand large_hand));
        passed = not (lt input.dollar_adv c.adv_floor || below_floor c.aum_floor input.aum);
        components = record {
          liquidity = liquidity;
          flow_capacity = flow_capacity;
          large_hand = large_hand;
          large_hand_observed = observed;
        };
        reasons =
            (if lt input.dollar_adv c.adv_floor
              then low_adv input.dollar_adv c.adv_floor ∷ []
              else [])
            ++ (aum_reason c.aum_floor input.aum
                ++ (if observed then [] else large_hand_unobserved ∷ []));
      }

  abbrev pub gate_input : (F → F) → Hooks F → Pit F → List (Bar F) → TradeabilityInput F
  gate_input ln hooks pit bs = record {
    symbol = pit.ticker;
    dollar_adv = dollar_adv bs lookback;
    aum = feature_value pit "tradeability.aum_raw";
    abs_gex = Option.map (λ (s : GexSnapshot F). s.abs_gex) (hooks.gex pit.ticker pit.decision_ts);
    options_oi = none;
    realized_vol = realized_vol ln (map (λ (b : Bar F). b.close) bs) lookback;
  }

  unfoldable pub compute_tradeability : (F → F) → Hooks F → Pit F → List (Feature F)
  compute_tradeability ln hooks pit =
      let bs = bars pit "daily" (lookback + 2) in
      let input = gate_input ln hooks pit bs in
      let score = evaluate_gate ln default_gate input in
      let mk = λ (key : String) (value : F).
        feature_of Layer.tradeability pit.decision_ts key "derived" value in
      if is_empty bs
      then []
      else mk "tradeability.dollar_adv" input.dollar_adv
        ∷ mk "tradeability.liquidity" score.components.liquidity
        ∷ mk "tradeability.flow_capacity" score.components.flow_capacity
        ∷ mk "tradeability.large_hand" score.components.large_hand
        ∷ mk "tradeability.score" score.score
        ∷ mk "tradeability.passed" (flag score.passed)
        ∷ []

-- ===== src/Core/Horizon.antt =====
-- crates/se-core/src/horizon.rs: the horizons and the constants that depend on them.
use swing_x.Prelude.{ℕ, List, [], ◌∷◌, String}
use swing_x.Float.{Float}

pub data Horizon : Type 0 where
  swing short_swing day zero_dte scalp : Horizon

abbrev pub all_horizons : List Horizon
all_horizons =
    Horizon.swing ∷ Horizon.short_swing ∷ Horizon.day ∷ Horizon.zero_dte ∷ Horizon.scalp ∷ []

abbrev pub as_str : Horizon → String
as_str Horizon.swing = "swing"
as_str Horizon.short_swing = "short_swing"
as_str Horizon.day = "day"
as_str Horizon.zero_dte = "zero_dte"
as_str Horizon.scalp = "scalp"

pub data Cadence : Type 0 where
  daily hourly min30 min15 min5 min1 : Cadence

abbrev pub minutes : Cadence → ℕ
minutes Cadence.daily = 390
minutes Cadence.hourly = 60
minutes Cadence.min30 = 30
minutes Cadence.min15 = 15
minutes Cadence.min5 = 5
minutes Cadence.min1 = 1

pub record CostModel (F : Type 0) : Type 0 where
  pub commission_per_share : F
  pub slippage_bps : F
  pub spread_bps : F

pub record HorizonProfile (F : Type 0) : Type 0 where
  pub horizon : Horizon
  pub cadence : Cadence
  pub min_hold_bars : ℕ
  pub max_hold_bars : ℕ
  pub target_atr_mult : F
  pub stop_atr_mult : F
  pub atr_lookback : ℕ
  pub embargo_bars : ℕ
  pub cost : CostModel F

module _ {F : Type 0} where
  -- The length of the purge in cross-validation is the label's horizon.
  abbrev pub purge_bars : HorizonProfile F → ℕ
  purge_bars p = p.max_hold_bars

module _ {F : Type 0} ⦃f : Float F⦄ where
  open f use {of_ℕ, decimal, add, mul, div}

  abbrev pub etf_default : CostModel F
  etf_default = record { commission_per_share = of_ℕ 0; slippage_bps = of_ℕ 1; spread_bps = of_ℕ 1 }

  unfoldable pub round_trip_frac : CostModel F → F
  round_trip_frac c = div (mul (of_ℕ 2) (add c.slippage_bps c.spread_bps)) (of_ℕ 10_000)

  abbrev pub swing_profile : HorizonProfile F
  swing_profile = record {
    horizon = Horizon.swing;
    cadence = Cadence.daily;
    min_hold_bars = 2;
    max_hold_bars = 15;
    target_atr_mult = of_ℕ 2;
    stop_atr_mult = of_ℕ 1;
    atr_lookback = 14;
    embargo_bars = 3;
    cost = etf_default;
  }

  abbrev pub short_swing_profile : HorizonProfile F
  short_swing_profile = record {
    horizon = Horizon.short_swing;
    cadence = Cadence.hourly;
    min_hold_bars = 2;
    max_hold_bars = 8;
    target_atr_mult = decimal 15 1;
    stop_atr_mult = decimal 8 1;
    atr_lookback = 14;
    embargo_bars = 2;
    cost = etf_default;
  }

  abbrev pub day_profile : HorizonProfile F
  day_profile = record {
    horizon = Horizon.day;
    cadence = Cadence.min15;
    min_hold_bars = 2;
    max_hold_bars = 13;
    target_atr_mult = decimal 12 1;
    stop_atr_mult = decimal 7 1;
    atr_lookback = 14;
    embargo_bars = 2;
    cost = etf_default;
  }

  abbrev pub zero_dte_profile : HorizonProfile F
  zero_dte_profile = record {
    horizon = Horizon.zero_dte;
    cadence = Cadence.min5;
    min_hold_bars = 1;
    max_hold_bars = 12;
    target_atr_mult = of_ℕ 1;
    stop_atr_mult = decimal 6 1;
    atr_lookback = 14;
    embargo_bars = 1;
    cost = etf_default;
  }

  abbrev pub scalp_profile : HorizonProfile F
  scalp_profile = record {
    horizon = Horizon.scalp;
    cadence = Cadence.min1;
    min_hold_bars = 1;
    max_hold_bars = 10;
    target_atr_mult = decimal 8 1;
    stop_atr_mult = decimal 5 1;
    atr_lookback = 14;
    embargo_bars = 1;
    cost = etf_default;
  }

  unfoldable pub for_horizon : Horizon → HorizonProfile F
  for_horizon Horizon.swing = swing_profile
  for_horizon Horizon.short_swing = short_swing_profile
  for_horizon Horizon.day = day_profile
  for_horizon Horizon.zero_dte = zero_dte_profile
  for_horizon Horizon.scalp = scalp_profile

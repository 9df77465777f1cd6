-- ===== src/Core/Risk.antt =====
-- crates/se-core/src/risk.rs: where the stop and the targets sit.
use swing_x.Prelude.{Option, some, if◌then◌else◌}
use mathlib.Core.Option
use swing_x.Float.{Float}
use swing_x.Core.Market.{Side, sign}
use swing_x.Core.Horizon.{HorizonProfile}

pub data StopSpec (F : Type 0) : Type 0 where
  atr : F → StopSpec F
  fixed : F → StopSpec F
  percent : F → StopSpec F

pub data TargetSpec (F : Type 0) : Type 0 where
  atr : F → TargetSpec F
  fixed : F → TargetSpec F
  percent : F → TargetSpec F
  r_multiple : F → TargetSpec F

pub record RiskModel (F : Type 0) : Type 0 where
  pub stop : StopSpec F
  pub target1 : TargetSpec F
  pub target2 : Option (TargetSpec F)

module _ {F : Type 0} ⦃f : Float F⦄ where
  open f use {of_ℕ, decimal, add, sub, mul, div, abs, lt}

  abbrev stop_offset : StopSpec F → F → F → F
  stop_offset (StopSpec.atr mult) entry vol = mul mult vol
  stop_offset (StopSpec.fixed dollars) entry vol = dollars
  stop_offset (StopSpec.percent pct) entry vol = mul (div pct (of_ℕ 100)) entry

  unfoldable pub stop_distance : StopSpec F → F → F → F
  stop_distance spec entry vol = abs (stop_offset spec entry vol)

  abbrev target_offset : TargetSpec F → F → F → F → F
  target_offset (TargetSpec.atr mult) entry vol risk = mul mult vol
  target_offset (TargetSpec.fixed dollars) entry vol risk = dollars
  target_offset (TargetSpec.percent pct) entry vol risk = mul (div pct (of_ℕ 100)) entry
  target_offset (TargetSpec.r_multiple r) entry vol risk = mul r risk

  unfoldable pub target_distance : TargetSpec F → F → F → F → F
  target_distance spec entry vol risk = abs (target_offset spec entry vol risk)

  abbrev pub default_const : RiskModel F
  default_const = record {
    stop = StopSpec.atr (of_ℕ 1);
    target1 = TargetSpec.r_multiple (of_ℕ 2);
    target2 = some (TargetSpec.r_multiple (of_ℕ 3));
  }

  unfoldable pub from_profile : HorizonProfile F → RiskModel F
  from_profile profile =
      let r1 =
        if lt (of_ℕ 0) profile.stop_atr_mult
        then div profile.target_atr_mult profile.stop_atr_mult
        else of_ℕ 2 in
      record {
        stop = StopSpec.atr profile.stop_atr_mult;
        target1 = TargetSpec.atr profile.target_atr_mult;
        target2 = some (TargetSpec.r_multiple (mul r1 (decimal 16 1)));
      }

  -- One R: the distance of the stop.
  unfoldable pub risk_distance : RiskModel F → F → F → F
  risk_distance m entry vol = stop_distance m.stop entry vol

  unfoldable pub stop_price : RiskModel F → F → F → Side → F
  stop_price m entry vol side = sub entry (mul (sign side) (stop_distance m.stop entry vol))

  unfoldable pub target_prices : RiskModel F → F → F → Side → F × Option F
  target_prices m entry vol side =
      let risk = risk_distance m entry vol in
      let price =
        λ (t : TargetSpec F). add entry (mul (sign side) (target_distance t entry vol risk)) in
      (price m.target1, Option.map price m.target2)

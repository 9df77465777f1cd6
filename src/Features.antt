-- ===== src/Features.antt =====
-- The feature modules of crates/se-features, on what a handle of crates/se-store answers. Private feeds
-- (`ProprietaryProvider`), the logarithm and the calendar (`chrono`) are parameters.
pub mod Indicators
pub mod Tradeability
pub mod RegimeLayer
pub mod Location
pub mod Trigger
pub mod Events
pub mod Tests
use swing_x.Prelude.{ℕ, Bool, true, false, Option, none, some, List, [], ◌∷◌, String, if◌then◌else◌}
use swing_x.Float.{Float}
use swing_x.Core.Layer.{Layer}
use swing_x.Store.{Feature, LeadTimeTag, end_of_day}

-- What of a dealer-positioning snapshot the modules read.
pub record GexSnapshot (F : Type 0) : Type 0 where
  pub net_gex : F
  pub abs_gex : F

-- What the private feeds answer at a ticker and a decision bar; an error counts as nothing.
pub record Hooks (F : Type 0) : Type 0 where
  pub gex : String → ℕ → Option (GexSnapshot F)
  pub order_flow_imbalance : String → ℕ → Option F
  pub dix : String → ℕ → Option F

-- The default, under which every private signal is unavailable.
abbrev pub null_proprietary : {F : Type 0} → Hooks F
null_proprietary = record {
  gex = λ ticker at. none;
  order_flow_imbalance = λ ticker at. none;
  dix = λ ticker at. none;
}

module _ {F : Type 0} where
  abbrev pub feature_of : Layer → ℕ → String → String → F → Feature F
  feature_of layer at key source value = record {
    key = key;
    value = value;
    layer = layer;
    as_of = at;
    lead_time = end_of_day;
    source = source;
  }

  abbrev pub with_some : {A : Type 0} → Option A → (A → List (Feature F)) → List (Feature F)
  with_some none then_push = []
  with_some (some x) then_push = then_push x

module _ {F : Type 0} ⦃f : Float F⦄ where
  open f use {of_ℕ, is_finite}

  -- `push`, which drops a value that is not finite.
  abbrev pub push : Layer → ℕ → String → String → F → List (Feature F)
  push layer at key source value =
      if is_finite value then feature_of layer at key source value ∷ [] else []

  abbrev pub flag : Bool → F
  flag b = if b then of_ℕ 1 else of_ℕ 0

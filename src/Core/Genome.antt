-- ===== src/Core/Genome.antt =====
-- crates/se-core/src/strategy.rs: predicates, genomes, the lifecycle of a strategy.
use swing_x.Prelude.{
  ℕ, Bool, true, false, not, ◌&&◌, Option, none, some, List, map, String, is_empty, all, lookup,
}
use swing_x.Float.{Float}
use swing_x.Core.Layer.{Layer}
use swing_x.Core.Market.{Side}
use swing_x.Core.Horizon.{Horizon, for_horizon}
use swing_x.Core.Risk.{RiskModel, from_profile}

pub data CmpOp : Type 0 where
  gt lt gte lte : CmpOp

pub record Predicate (F : Type 0) : Type 0 where
  pub layer : Layer
  pub feature_key : String
  pub op : CmpOp
  pub threshold : F

pub record Genome (F : Type 0) : Type 0 where
  pub side : Side
  pub horizon : Horizon
  pub predicates : List (Predicate F)
  pub risk : RiskModel F

-- What is read from storage: a genome written before the field `risk` has none.
pub record GenomeRaw (F : Type 0) : Type 0 where
  pub side : Side
  pub horizon : Horizon
  pub predicates : List (Predicate F)
  pub risk : Option (RiskModel F)

pub data StrategyStatus : Type 0 where
  candidate promoted quarantined demoted retired : StrategyStatus

abbrev pub can_surface : StrategyStatus → Bool
can_surface StrategyStatus.promoted = true
can_surface _ = false

-- A strategy's identity is a number.
pub record Strategy (F : Type 0) : Type 0 where
  pub id : ℕ
  pub genome : Genome F
  pub status : StrategyStatus
  pub generation : ℕ
  pub parent : Option ℕ

abbrev pub Features : Type 0 → Type 0
Features F = List (String × F)

module _ {F : Type 0} where
  abbrev pub feature_keys : List (Predicate F) → List String
  feature_keys = map λ p. p.feature_key

module _ {F : Type 0} ⦃f : Float F⦄ where
  abbrev pub apply : CmpOp → F → F → Bool
  apply CmpOp.gt value threshold = f.lt threshold value
  apply CmpOp.lt value threshold = f.lt value threshold
  apply CmpOp.gte value threshold = f.le threshold value
  apply CmpOp.lte value threshold = f.le value threshold

  abbrev pub holds : Predicate F → F → Bool
  holds p value = apply p.op value p.threshold

  abbrev pub holds_in : Features F → Predicate F → Bool
  holds_in features p = elim (lookup p.feature_key features) [ none ↦ false | some v ↦ holds p v ]

  unfoldable pub fires : Genome F → Features F → Bool
  fires g features = not (is_empty g.predicates) && all (holds_in features) g.predicates

  unfoldable pub new : Side → Horizon → List (Predicate F) → Genome F
  new side horizon predicates = record {
    side = side;
    horizon = horizon;
    predicates = predicates;
    risk = from_profile (for_horizon horizon);
  }

  -- `impl From<GenomeRaw> for Genome`
  unfoldable pub from_raw : GenomeRaw F → Genome F
  from_raw raw = record {
    side = raw.side;
    horizon = raw.horizon;
    predicates = raw.predicates;
    risk = elim raw.risk [ none ↦ from_profile (for_horizon raw.horizon) | some risk ↦ risk ];
  }

module _ {F : Type 0} where
  unfoldable pub new_strategy : ℕ → Genome F → Strategy F
  new_strategy id genome = record {
    id = id;
    genome = genome;
    status = StrategyStatus.candidate;
    generation = 0;
    parent = none;
  }

-- ===== src/Search/Population/Tests.antt =====
-- A generation bred from two survivors, and a seed, with the theorems at them.
use swing_x.Prelude.{ℕ, ◌*◌, true, List, [], ◌∷◌, String}
use swing_x.Prelude.Int.{pos}
use swing_x.Float.Fixed.{Fixed, num, fixed_float}
use swing_x.Core.Layer.{Layer}
use swing_x.Core.Market.{Side}
use swing_x.Core.Horizon.{Horizon}
use swing_x.Core.Risk.{default_const}
use swing_x.Core.Genome.{CmpOp, Predicate, Genome, new}
use swing_x.Search.Rng.{seeded}
use swing_x.Search.Catalog.{FeatureStat}
use swing_x.Search.RiskSearch.{risk_space}
use swing_x.Search.Population.{SearchConfig, next_generation}
use swing_x.Search.Population.Generation.{IsNextGeneration, next_generation-IsNextGeneration}

abbrev value : ℕ → Fixed
value n = num (pos (n * 10_000))

abbrev rsi : FeatureStat Fixed
rsi = record {
  key = "trigger.rsi14";
  layer = Layer.trigger;
  sorted_values = value 20 ∷ value 40 ∷ value 60 ∷ [];
}

abbrev pub config : SearchConfig Fixed
config = record {
  horizon = Horizon.swing;
  max_predicates = 3;
  risk = default_const;
  lock_risk = true;
  offspring_pool_mult = value 2;
  catalog = record { stats = rsi ∷ [] };
  space = risk_space default_const;
}

-- The first feature stands for the signature.
abbrev pub first_key : List (Predicate Fixed) → String
first_key [] = ""
first_key (p ∷ ps) = p.feature_key

abbrev survivor : Genome Fixed
survivor = new Side.long Horizon.swing (
    record {
      layer = Layer.trigger;
      feature_key = "trigger.rsi14";
      op = CmpOp.gt;
      threshold = value 40;
    }
    ∷ [])

next_generation-IsNextGeneration_example :
    let (genomes, seen) =
      (next_generation
        (λ g. first_key g.predicates)
        (λ g. first_key g.predicates)
        config
        (survivor ∷ [])
        2
        ("regime.adx" ∷ [])
        (seeded 7 1)).0 in
    IsNextGeneration
      (λ g. first_key g.predicates)
      (λ g. first_key g.predicates)
      config
      (survivor ∷ [])
      2
      ("regime.adx" ∷ [])
      genomes
      seen
next_generation-IsNextGeneration_example =
    next_generation-IsNextGeneration (λ g. first_key g.predicates) (λ g. first_key g.predicates)
      config (survivor ∷ []) 2 ("regime.adx" ∷ []) (seeded 7 1)

-- ===== src/Search/Draw.antt =====
-- The draws of predicates of crates/se-search/src/seed.rs.
pub mod OnCatalog
use swing_x.Prelude.{
  ◌≡◌, Bool, true, false, Option, none, some, List, [], ◌∷◌, if◌then◌else◌, keep_if, any,
}
use swing_x.Float.{Float}
use swing_x.Core.Layer.{Layer, same_layer}
use swing_x.Core.Genome.{CmpOp, Predicate}
use swing_x.Search.Rng.{Draws, ◌>>=◌, pure, choice, uniform, chance}
use swing_x.Search.Catalog.{FeatureStat, FeatureCatalog, quantile}

abbrev pub has_layer : List Layer → Layer → Bool
has_layer layers layer = any (λ l. same_layer l layer) layers

module _ {F : Type 0} ⦃f : Float F⦄ where
  open f use {decimal, add, mul}

  -- The predicate on a feature at a threshold, with a random direction.
  predicate_at : FeatureStat F → Option F → Draws (Option (Predicate F))
  predicate_at s none = pure none
  predicate_at s (some t) = do
    up ← chance (decimal 5 1)
    pure (
        some (record {
          layer = s.layer;
          feature_key = s.key;
          op = if up then CmpOp.gt else CmpOp.lt;
          threshold = t;
        }))

  predicate_on : Option (FeatureStat F) → Draws (Option (Predicate F))
  unfolding predicate_at
  predicate_on none = pure none
  predicate_on (some s) = do
    u ← uniform
    predicate_at s (quantile s (add (decimal 2 1) (mul (decimal 6 1) u)))

  unfoldable pub draw_predicate : FeatureCatalog F → Draws (Option (Predicate F))
  unfolding predicate_on
  draw_predicate c = do s ← choice c.stats; predicate_on s

  unfoldable pub draw_predicate_in_layers :
      FeatureCatalog F → List Layer → Draws (Option (Predicate F))
  unfolding predicate_on
  draw_predicate_in_layers c layers = do
    s ← choice (keep_if (λ s. has_layer layers s.layer) c.stats)
    predicate_on s

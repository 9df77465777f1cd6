-- ===== src/Search/Seed.antt =====
-- The seeds of crates/se-search/src/seed.rs: random genomes, archetypes and populations. A population
-- is told apart by the text that `describe` gives of a genome, which is a parameter.
pub mod Promotable
use swing_x.Prelude.{
  ℕ, zero, suc, ◌+◌, ◌*◌, min, max, ◌≡◌, Bool, true, false, not, ◌&&◌, ◌||◌, Option, none, some,
  List, [], ◌∷◌, ◌++◌, String, leb, if◌then◌else◌, length, is_empty, any, contains,
}
use swing_x.Float.{Float, clamp}
use swing_x.Core.Layer.{Layer}
use swing_x.Core.Market.{Side}
use swing_x.Core.Horizon.{Horizon}
use swing_x.Core.Genome.{CmpOp, Predicate, Genome, new}
use swing_x.Search.Rng.{Draws, ◌>>=◌, pure, below, chance}
use swing_x.Search.Catalog.{
  FeatureStat, FeatureCatalog, stats_in_layer, has_actionable_feature, is_actionable, stat_for_key,
  quantile,
}
use swing_x.Search.Draw.{draw_predicate, draw_predicate_in_layers}
use swing_x.Search.Crossover.{Picked, none_picked, pick}

abbrev pub actionable_layers : List Layer
actionable_layers = Layer.trigger ∷ Layer.location ∷ []

abbrev pub context_layers : List Layer
context_layers = Layer.regime ∷ Layer.tradeability ∷ Layer.event ∷ []

module _ {F : Type 0} where
  -- Pushed unless its feature is in use.
  abbrev pub pick_drawn : Picked F → Option (Predicate F) → Picked F
  pick_drawn x none = x
  pick_drawn x (some p) = pick x p

module _ {F : Type 0} ⦃f : Float F⦄ where
  open f use {of_ℕ, decimal}

  -- At most so many attempts to reach `target` predicates.
  unfoldable pub pad : FeatureCatalog F → ℕ → ℕ → Picked F → Draws (Picked F)
  pad c target zero x rng = (x, rng)
  pad c target (suc attempts) x rng =
      let (p, rng') = draw_predicate c rng in
      let rest = pad c target attempts (pick_drawn x p) rng' in
      if leb target (length x.predicates) then (x, rng) else rest

  unfoldable pub with_side : Horizon → List (Predicate F) → Draws (Option (Genome F))
  with_side horizon ps = do
    heads ← chance (decimal 5 1)
    pure (some (new (if heads then Side.long else Side.short) horizon ps))

  unfoldable pub random_genome : FeatureCatalog F → Horizon → ℕ → Draws (Option (Genome F))
  unfolding with_side
  random_genome c horizon most rng =
      if is_empty c.stats
      then (none, rng)
      else let (n, rng') = below (max most 1) rng in
        let (x, rng'') = pad c (suc n) (suc n * 4) none_picked rng' in
        if is_empty x.predicates then (none, rng'') else with_side horizon x.predicates rng''

  abbrev pub has_context : FeatureCatalog F → Bool
  has_context c =
      not (is_empty (stats_in_layer c Layer.regime))
      || (not (is_empty (stats_in_layer c Layer.tradeability))
          || not (is_empty (stats_in_layer c Layer.event)))

  unfoldable pub add_context : FeatureCatalog F → Picked F → Draws (Picked F)
  add_context c x rng =
      if has_context c
      then (let (p, rng') = draw_predicate_in_layers c context_layers rng in (pick_drawn x p, rng'))
      else (x, rng)

  unfoldable pub promotable_from :
      FeatureCatalog F → Horizon → ℕ → Option (Predicate F) → Draws (Option (Genome F))
  unfolding add_context with_side
  promotable_from c horizon most none = pure none
  promotable_from c horizon most (some p) = do
    x ← add_context c (pick none_picked p)
    n ← below (max most 1)
    let target = min (2 + n) (max most 2)
    y ← pad c target (target * 4) x
    with_side horizon y.predicates

  unfoldable pub random_genome_promotable :
      FeatureCatalog F → Horizon → ℕ → Draws (Option (Genome F))
  unfolding promotable_from
  random_genome_promotable c horizon most = do
    p ← draw_predicate_in_layers c actionable_layers
    promotable_from c horizon most p

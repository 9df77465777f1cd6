-- ===== src/Search/Tests.antt =====
-- The operators on genomes at a small catalog.
use swing_x.Prelude.{ℕ, ◌*◌, ◌≡◌, refl, inl, inr, some, max, List, [], ◌∷◌, arith}
use swing_x.Prelude.Int.{pos}
use swing_x.Float.Fixed.{round_fixed, Fixed, num, fixed_float}
use swing_x.Core.Layer.{Layer}
use swing_x.Core.Market.{Side}
use swing_x.Core.Horizon.{Horizon}
use swing_x.Core.Genome.{CmpOp, Predicate, Genome, new}
use swing_x.Search.Seed.{pad, promotable_from, random_genome_promotable}
use swing_x.Search.Seed.Promotable.{IsPromotableShape, random_genome_promotable-IsPromotableShape}
use swing_x.Search.Rng.{seeded, choice, below, next_u64, uniform, chance}
use swing_x.Search.Draw.{draw_predicate, draw_predicate_in_layers}
use swing_x.Search.Catalog.{quantile, nearest_rank, FeatureStat, FeatureCatalog}
use swing_x.Search.Draw.OnCatalog.{OnCatalog}
use swing_x.Search.Mutate.{mutate}
use swing_x.Search.Mutate.Operators.{IsValid}
use swing_x.Search.Mutate.Valid.{mutate-IsValid}
use swing_x.Search.Crossover.{crossover}
use swing_x.Search.Crossover.Valid.{crossover-IsValid}

abbrev value : ℕ → Fixed
value n = num (pos (n * 10_000))

abbrev rsi : FeatureStat Fixed
rsi = record {
  key = "trigger.rsi14";
  layer = Layer.trigger;
  sorted_values = value 20 ∷ value 40 ∷ value 60 ∷ [];
}

abbrev adx : FeatureStat Fixed
adx = record { key = "regime.adx"; layer = Layer.regime; sorted_values = value 10 ∷ value 30 ∷ [] }

abbrev catalog : FeatureCatalog Fixed
catalog = record { stats = rsi ∷ adx ∷ [] }

abbrev above : FeatureStat Fixed → Fixed → Predicate Fixed
above s t = record { layer = s.layer; feature_key = s.key; op = CmpOp.gt; threshold = t }

abbrev genome : List (Predicate Fixed) → Genome Fixed
genome ps = record (new Side.long Horizon.swing []) { predicates = ps }

abbrev one : Genome Fixed
one = genome (above rsi (value 40) ∷ [])

abbrev other : Genome Fixed
other = genome (above adx (value 30) ∷ [])

rsi_on : OnCatalog catalog (above rsi (value 40))
rsi_on = record { stat = rsi; listed = inl refl; same_key = refl; observed = inr (inl refl) }

adx_on : OnCatalog catalog (above adx (value 30))
adx_on = record { stat = adx; listed = inr (inl refl); same_key = refl; observed = inr (inl refl) }

one-IsValid : IsValid catalog one.predicates
one-IsValid = record {
  nonempty = omega arith;
  bounded = omega arith;
  distinct = (refl, tt);
  on_catalog = (rsi_on, tt);
}

mutate-IsValid_example : IsValid catalog (mutate one catalog (seeded 7 1)).0.predicates
mutate-IsValid_example = mutate-IsValid catalog one (seeded 7 1) one-IsValid

crossover-IsValid_example :
    IsValid catalog (crossover one other (seeded 7 1)).0.predicates
    × ((crossover one other (seeded 7 1)).0.side ≡ one.side)
    × ((crossover one other (seeded 7 1)).0.horizon ≡ one.horizon)
crossover-IsValid_example =
    crossover-IsValid catalog one other (seeded 7 1) one-IsValid (adx_on, tt)

-- The trigger comes first, and the regime for its context.
abbrev seed : Genome Fixed
seed = new Side.short Horizon.swing (above rsi (value 40) ∷ above adx (value 30) ∷ [])

drawn_seed : (random_genome_promotable catalog Horizon.swing 3 (seeded 7 1)).0 ≡ some seed
unfolding random_genome_promotable promotable_from seeded draw_predicate_in_layers draw_predicate
    choice below next_u64 quantile nearest_rank round_fixed uniform new chance pad
drawn_seed = refl

random_genome_promotable-IsPromotableShape_example : IsPromotableShape catalog (max 3 2) seed
random_genome_promotable-IsPromotableShape_example =
    random_genome_promotable-IsPromotableShape catalog Horizon.swing 3 (seeded 7 1) seed drawn_seed

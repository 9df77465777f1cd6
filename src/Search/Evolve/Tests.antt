-- ===== src/Search/Evolve/Tests.antt =====
-- A search of one generation, and the theorems at it.
use swing_x.Prelude.{
  ℕ, zero, suc, ◌+◌, ◌*◌, ◌≡◌, ◌≤◌, ◌↔◌, ◌⊎◌, inl, inr, refl, ap, All, OneOf, arith, none, List, [],
  ◌∷◌, String, length,
}
use swing_x.Prelude.Int.{pos}
use swing_x.Prelude.Results.{ok}
use swing_x.Float.Fixed.{Fixed, num, fixed_float, sqrt_fixed}
use swing_x.Core.Layer.{Layer}
use swing_x.Core.Horizon.{Horizon, HorizonProfile, swing_profile, for_horizon}
use swing_x.Core.Risk.{from_profile, risk_distance, stop_price, stop_distance, target_distance}
use swing_x.Core.Genome.{Predicate, Genome, Strategy, StrategyStatus, fires, new, new_strategy}
use swing_x.Validation.Harness.{Worker}
use swing_x.Monitor.Store.{StrategyRow}
use swing_x.Search.Catalog.{FeatureStat}
use swing_x.Search.RiskSearch.{risk_space}
use swing_x.Search.Firewall.{DatasetRow}
use swing_x.Search.Backtest.{FeatureWindow}
use swing_x.Search.Population.{SearchConfig}
use swing_x.Search.Persist.{Scanner, SearchDb}
use swing_x.Search.Evolve.{Manager, Ids, EvolveOutcome, evolve, generations, leaderboard}
use swing_x.Search.Backtest.Tests.{window, identity, profile}
use swing_x.Search.Population.Tests.{config, first_key}
use swing_x.Search.Score.{Evaluated}
use swing_x.Search.Score.Tests.{result, member, genome}
use swing_x.Search.Population.{next_generation}
use swing_x.Search.Evolve.{evaluate_all}
use swing_x.Search.Evolve.Identity.{evolve-identity}
use swing_x.Search.Evolve.Leaderboard.{IsMember, evolve-bounded}
use swing_x.Search.Evolve.Promoted.{evolve-promoted}
use swing_x.Search.Survivors.{Promotes}
use swing_x.Search.Persist.{upsert_strategy, load_strategy}
use swing_x.Search.Survivors.{select_survivors, select_one}

abbrev copies : ℕ → List (FeatureWindow Fixed)
copies zero = []
copies (suc n) = window ∷ copies n

abbrev worker : Worker (DatasetRow Fixed) String Fixed
worker = record {
  write_dataset = λ rows name. ok name;
  validate = λ req. ok result;
  describe = λ e. e;
}

abbrev stat : Layer → String → ℕ → FeatureStat Fixed
stat layer key n = record {
  layer = layer;
  key = key;
  sorted_values = num (pos n) ∷ num (pos (n + 50_000)) ∷ num (pos (n + 100_000)) ∷ [];
}

abbrev manager : Manager Fixed
manager = record {
  cfg = record config {
    catalog = record {
      stats =
          stat Layer.trigger "trigger.rsi14" 800_000 ∷ stat Layer.regime "regime.vvix" 700_000 ∷ [];
    };
  };
  profile = profile;
  score = record { n_groups = 8; k_test_groups = 2; n_trials = 1; n_search_trials = 1 };
  scanner = Scanner.etf;
  test_era = none;
  base_seed = 11;
  windows = copies 20;
}

abbrev empty : SearchDb Fixed
empty = record { strategies = []; details = []; scores = [] }

abbrev key : Genome Fixed → String
key g = first_key g.predicates

abbrev run : List (Evaluated Fixed) × (Ids × SearchDb Fixed)
run = generations identity worker (λ id. "rows") key key (λ n. n + 100) manager 1 0 2 [] [] [] empty

abbrev outcome : EvolveOutcome Fixed
outcome = record { evaluated = leaderboard run.0; profile = profile }

abbrev nth : ℕ → List (Evaluated Fixed) → Evaluated Fixed
nth n [] = member
nth zero (ev ∷ evs) = ev
nth (suc n) (ev ∷ evs) = nth n evs

abbrev promoted_row : StrategyRow
promoted_row = record { strategy_id = 100; status = StrategyStatus.promoted }

-- The first of two members is promoted.
found :
    OneOf (nth 0 outcome.evaluated) outcome.evaluated
    × OneOf (nth 1 outcome.evaluated) outcome.evaluated
    × OneOf promoted_row run.1.1.strategies
unfolding swing_x.Search.Evolve.identity swing_x.Search.Evolve.leaderboard
    swing_x.Search.Evolve.evaluate_genome swing_x.Search.Evolve.evaluate_all
    swing_x.Search.Evolve.generations swing_x.Search.Evolve.evolve
    swing_x.Search.Persist.find_status swing_x.Search.Persist.write_detail
    swing_x.Search.Persist.upsert_strategy swing_x.Search.Persist.find_detail
    swing_x.Search.Persist.load_strategy swing_x.Search.Persist.insert_oos_score
    swing_x.Search.Persist.persist swing_x.Search.Survivors.select_one
    swing_x.Search.Survivors.select_survivors swing_x.Search.Score.wilson_lower_bound
    swing_x.Search.Score.is_survivor swing_x.Search.Score.partial_cmp
    swing_x.Search.Score.cmp_best_first swing_x.Search.Score.survives
    swing_x.Search.Score.promotable swing_x.Search.Score.score_oos swing_x.Search.Firewall.purge_era
    swing_x.Search.Firewall.firewall_test_era swing_x.Search.Backtest.dotted_to_column
    swing_x.Search.Backtest.visit swing_x.Search.Backtest.walk swing_x.Search.Backtest.backtest
    swing_x.Search.Backtest.sort_rows swing_x.Search.Backtest.assemble
    swing_x.Search.Backtest.build_dataset swing_x.Search.Population.offspring
    swing_x.Search.Population.crossed_pair swing_x.Search.Population.first_mutations
    swing_x.Search.Population.crossovers swing_x.Search.Population.explore
    swing_x.Search.Population.top_up swing_x.Search.Population.pool
    swing_x.Search.Population.next_generation swing_x.Search.Archetypes.express
    swing_x.Search.Archetypes.archetype_seeds_of swing_x.Search.Archetypes.archetype_seeds
    swing_x.Search.Archetypes.admit_until swing_x.Search.Archetypes.fill
    swing_x.Search.Archetypes.seed_population_biased swing_x.Search.Archetypes.seed_population
    swing_x.Search.Seed.pad swing_x.Search.Seed.with_side swing_x.Search.Seed.random_genome
    swing_x.Search.Seed.add_context swing_x.Search.Seed.promotable_from
    swing_x.Search.Seed.random_genome_promotable swing_x.Search.Draw.draw_predicate
    swing_x.Search.Draw.draw_predicate_in_layers swing_x.Search.RiskSearch.risk_space
    swing_x.Search.RiskSearch.mutate_stop swing_x.Search.RiskSearch.sample
    swing_x.Search.RiskSearch.swap_stop_kind swing_x.Search.RiskSearch.mutate_risk
    swing_x.Search.RiskSearch.crossover_risk swing_x.Search.RiskSearch.seed_risk
    swing_x.Search.Rng.seeded swing_x.Search.Rng.new swing_x.Search.Rng.next_u64
    swing_x.Search.Rng.below swing_x.Search.Rng.choice swing_x.Search.Rng.uniform
    swing_x.Search.Rng.chance swing_x.Search.Catalog.layer_of_key
    swing_x.Search.Catalog.stat_for_key swing_x.Search.Catalog.nearest_rank
    swing_x.Search.Catalog.quantile swing_x.Search.Catalog.is_informative
    swing_x.Labeler.resolve_bar swing_x.Labeler.first_touch swing_x.Labeler.label_one_with_risk
    swing_x.Labeler.label_one swing_x.Regime.core_count swing_x.Regime.out_of_bounds
    swing_x.Regime.candidates swing_x.Regime.scores swing_x.Regime.softmax
    swing_x.Regime.insert_ranked swing_x.Regime.rank swing_x.Regime.classify_known
    swing_x.Regime.classify swing_x.Validation.evaluate swing_x.Validation.evaluate_opt
    swing_x.Core.Risk.stop_distance swing_x.Core.Risk.target_distance swing_x.Core.Risk.from_profile
    swing_x.Core.Risk.risk_distance swing_x.Core.Risk.stop_price swing_x.Core.Risk.target_prices
    swing_x.Core.Genome.fires swing_x.Core.Genome.new swing_x.Core.Genome.from_raw
    swing_x.Core.Genome.new_strategy swing_x.Core.Horizon.round_trip_frac
    swing_x.Core.Horizon.for_horizon swing_x.Core.Market.true_range
    swing_x.Core.Market.intrabar_return swing_x.Validation.Harness.evaluate_with
    swing_x.Validation.Harness.evaluate_shape swing_x.Validation.Harness.evaluate_or_fail_closed
    swing_x.Store.upsert swing_x.Store.upsert_all swing_x.Store.repeats swing_x.Store.execute
    swing_x.Store.in_chunks swing_x.Store.upsert_bars swing_x.Store.insert_features
    swing_x.Store.upsert_macro swing_x.Store.insert_regime swing_x.Store.delete_macro_by_source
    swing_x.Store.delete_features_by_source swing_x.Store.Pit.insert_sorted
    swing_x.Store.Pit.order_by swing_x.Store.Pit.distinct_on swing_x.Store.Pit.features
    swing_x.Store.Pit.feature swing_x.Store.Pit.bars_for swing_x.Store.Pit.macro_value_as_of
    swing_x.Store.Pit.macro_history swing_x.Store.Pit.pit swing_x.Store.Pit.feature_key_count
    swing_x.Float.Fixed.sqrt_fixed swing_x.Float.Fixed.round_fixed swing_x.Float.Fixed.ceil_fixed
found = (inl refl, inr (inl refl), inl refl)

ended :
    evolve identity worker (λ id. "rows") key key (λ n. n + 100) manager 1 2 empty
    ≡ (ok outcome, run.1.1)
unfolding evolve
ended = refl

held :
    OneOf promoted_row
      (evolve identity worker (λ id. "rows") key key (λ n. n + 100) manager 1 2 empty).1.strategies
unfolding evolve
held = found.2

evolve-identity_example :
    ((nth 0 outcome.evaluated).strategy.id ≡ (nth 1 outcome.evaluated).strategy.id) ↔ (
      key (nth 0 outcome.evaluated).strategy.genome ≡ key (nth 1 outcome.evaluated).strategy.genome)
evolve-identity_example =
    evolve-identity identity worker (λ id. "rows") key key (λ n. n + 100) manager
      (λ i j e. omega arith) 1 2 empty outcome (nth 0 outcome.evaluated) (nth 1 outcome.evaluated)
      (ap (λ x. x.0) ended) found.0 found.1

evolve-bounded_example :
    (length outcome.evaluated ≤ 1 * 2)
    × All
        (IsMember identity worker (λ id. "rows") key key (λ n. n + 100) manager 1)
        outcome.evaluated
evolve-bounded_example =
    evolve-bounded identity worker (λ id. "rows") key key (λ n. n + 100) manager 1 2 empty outcome
      (ap (λ x. x.0) ended)

evolve-promoted_example :
    OneOf promoted_row empty.strategies ⊎ Promotes outcome.evaluated promoted_row
evolve-promoted_example =
    evolve-promoted identity worker (λ id. "rows") key key (λ n. n + 100) manager 1 2 empty outcome
      promoted_row (ap (λ x. x.0) ended) held refl

abbrev stored : Strategy Fixed
stored = new_strategy 7 genome

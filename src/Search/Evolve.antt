-- ===== src/Search/Evolve.antt =====
-- The search loop `evolve` of crates/se-search/src/population.rs. The identities that `StrategyId::new` mints are
-- the values of a function at the numbers of those minted before. Where an instance of the worker or the
-- writer fails, the member has no score.
pub mod Identity
pub mod Leaderboard
pub mod Promoted
pub mod Tests
use Prim.Native.Nat.{Ordering}
use swing_x.Prelude.{
  ℕ, zero, suc, ◌%◌, ◌^◌, max, Bool, true, false, Option, none, some, List, [], ◌∷◌, ◌++◌, String,
  ltb, if◌then◌else◌, length, lookup, is_empty,
}
use swing_x.Prelude.Results.{Result, ok, err}
use swing_x.Float.{Float}
use swing_x.Core.Horizon.{HorizonProfile}
use swing_x.Core.Genome.{Genome, Strategy, StrategyStatus}
use swing_x.Validation.Harness.{Worker}
use swing_x.Store.Pit.{order_by}
use swing_x.Search.Rng.{seeded}
use swing_x.Search.Score.{
  OosScore, ScoreConfig, Evaluated, min_entries_to_validate, score_oos, cmp_best_first,
}
use swing_x.Search.Firewall.{DatasetRow}
use swing_x.Search.Backtest.{FeatureWindow, build_dataset}
use swing_x.Search.Survivors.{select_survivors}
use swing_x.Search.Population.{SearchConfig, next_generation}
use swing_x.Search.Persist.{Scanner, SearchDb, persist}

-- `PopulationManager`, with the store passed along.
pub record Manager (F : Type 0) : Type 0 where
  pub cfg : SearchConfig F
  pub profile : HorizonProfile F
  pub score : ScoreConfig
  pub scanner : Scanner
  pub test_era : Option (ℕ × ℕ)
  pub base_seed : ℕ
  pub windows : List (FeatureWindow F)

pub record EvolveOutcome (F : Type 0) : Type 0 where
  pub evaluated : List (Evaluated F)
  pub profile : HorizonProfile F

pub data EvolveError : Type 0 where
  no_features : EvolveError

-- The identities by signature.
abbrev pub Ids : Type 0
Ids = List (String × ℕ)

abbrev pub or_mint : (ℕ → ℕ) → String → Ids → Option ℕ → ℕ × Ids
or_mint mint sig ids (some id) = (id, ids)
or_mint mint sig ids none = (mint (length ids), ids ++ (sig, mint (length ids)) ∷ [])

-- `*id_for_signature.entry(sig).or_insert_with(StrategyId::new)`
unfoldable pub identity : (ℕ → ℕ) → String → Ids → ℕ × Ids
identity mint sig ids = or_mint mint sig ids (lookup sig ids)

abbrev pub is_gt : Ordering → Bool
is_gt Ordering.gt = true
is_gt _ = false

module _ {F : Type 0} ⦃f : Float F⦄ where
  abbrev pub compare_scores : Option (OosScore F) → Option (OosScore F) → Ordering
  compare_scores (some a) (some b) = cmp_best_first a b
  compare_scores (some a) none = Ordering.lt
  compare_scores none (some b) = Ordering.gt
  compare_scores none none = Ordering.eq

  -- Whether the first stands strictly above the second, so that equal members keep their order.
  abbrev pub above : Evaluated F → Evaluated F → Bool
  above a b = is_gt (compare_scores b.score a.score)

  unfoldable pub leaderboard : List (Evaluated F) → List (Evaluated F)
  leaderboard evs = order_by above evs

  abbrev pub or_none : {E : Type 0} → Result E (Option (OosScore F)) → Option (OosScore F)
  or_none (ok score) = score
  or_none (err e) = none

  module _ {E : Type 0} (exp : F → F) (w : Worker (DatasetRow F) E F) (dataset_name : ℕ → String)
      (signature describe : Genome F → String) (mint : ℕ → ℕ) (m : Manager F) where
    unfoldable pub evaluate_genome : Strategy F → ℕ → Evaluated F
    evaluate_genome strategy n_search_trials =
        let (rows, n_entries) = build_dataset exp strategy.genome m.profile m.test_era m.windows in
        let score_cfg = record m.score { n_search_trials = max n_search_trials 1 } in
        let scored =
          or_none (score_oos w strategy.id (dataset_name strategy.id) rows m.profile score_cfg) in
        record {
          strategy = strategy;
          score = if ltb n_entries min_entries_to_validate then none else scored;
          n_entries = n_entries;
        }

    abbrev pub candidate : ℕ → Genome F → ℕ → Strategy F
    candidate gen genome id = record {
      id = id;
      genome = genome;
      status = StrategyStatus.candidate;
      generation = gen;
      parent = none;
    }

    -- The members of a generation, each with the number of signatures so far as its number of trials.
    unfoldable pub evaluate_all :
        ℕ → List (Genome F) → Ids → SearchDb F → List (Evaluated F) × (Ids × SearchDb F)
    evaluate_all gen [] ids db = ([], (ids, db))
    evaluate_all gen (g ∷ gs) ids db =
        let (id, ids1) = identity mint (signature g) ids in
        let ev = evaluate_genome (candidate gen g id) (length ids1 % 2 ^ 32) in
        let db1 = persist m.score m.profile m.cfg.lock_risk m.scanner ev db in
        let (evs, after) = evaluate_all gen gs ids1 db1 in (ev ∷ evs, after)

    -- The generations that are left, from this one on.
    unfoldable pub generations :
        ℕ
        → ℕ
        → ℕ
        → List (Genome F)
        → List String
        → Ids
        → SearchDb F
        → List (Evaluated F) × (Ids × SearchDb F)
    generations zero gen per_gen survivors seen ids db = ([], (ids, db))
    generations (suc left) gen per_gen survivors seen ids db =
        let (next, rng) =
          next_generation signature describe m.cfg survivors per_gen seen
            (seeded m.base_seed gen) in
        let (genomes, seen1) = next in
        let (evs, after) = evaluate_all gen genomes ids db in
        let (ids1, db1) = after in
        let (survivors1, strategies) = select_survivors evs db1.strategies in
        let db2 = record db1 { strategies = strategies } in
        let (more, last) = generations left (suc gen) per_gen survivors1 seen1 ids1 db2 in
        (evs ++ more, last)

    unfoldable pub evolve : ℕ → ℕ → SearchDb F → Result EvolveError (EvolveOutcome F) × SearchDb F
    evolve count per_gen db =
        if is_empty m.cfg.catalog.stats
        then (err no_features, db)
        else let (evs, after) = generations count 0 per_gen [] [] [] db in
          (ok (record { evaluated = leaderboard evs; profile = m.profile }), after.1)

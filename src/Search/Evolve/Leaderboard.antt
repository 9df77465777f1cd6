-- ===== src/Search/Evolve/Leaderboard.antt =====
-- The order of the outcome of a search, and its size.
use swing_x.Prelude.{
  ℕ, zero, suc, ◌+◌, ◌*◌, ◌≤◌, ◌<◌, ◌≡◌, refl, ap, List, [], ◌∷◌, String, length, length-append,
  All, All-append, arith,
}
use swing_x.Prelude.Results.{ok}
use swing_x.Float.{Float}
use swing_x.Core.Genome.{Genome, StrategyStatus}
use swing_x.Validation.Harness.{Worker}
use swing_x.Store.Order.{length-order_by, All-order_by}
use swing_x.Search.Rng.{seeded}
use swing_x.Search.Score.{Evaluated}
use swing_x.Search.Firewall.{DatasetRow}
use swing_x.Search.Survivors.{select_survivors}
use swing_x.Search.Population.{next_generation}
use swing_x.Search.Population.Generation.{next_generation-IsNextGeneration}
use swing_x.Search.Persist.{SearchDb}
use swing_x.Search.Evolve.{
  Manager, EvolveOutcome, Ids, above, leaderboard, evaluate_genome, evaluate_all, generations,
  evolve,
}
use swing_x.Search.Evolve.Identity.{evolve-outcome}

module _ {E F : Type 0} ⦃f : Float F⦄ (exp : F → F) (w : Worker (DatasetRow F) E F)
    (dataset_name : ℕ → String) (signature describe : Genome F → String) (mint : ℕ → ℕ)
    (m : Manager F) where
  -- A member of a generation below the bound.
  abbrev pub IsMember : ℕ → Evaluated F → Type 0
  IsMember bound ev =
      (ev.strategy.generation < bound) × (ev.strategy.status ≡ StrategyStatus.candidate)

  evaluate_all-IsMember :
      (gen bound : ℕ) (gs : List (Genome F)) (ids : Ids) (db : SearchDb F)
      → gen < bound
      → let evs = (evaluate_all exp w dataset_name signature describe mint m gen gs ids db).0 in
        All (IsMember bound) evs × (length evs ≡ length gs)
  unfolding evaluate_all evaluate_genome
  evaluate_all-IsMember gen bound [] ids db h = (tt, refl)
  evaluate_all-IsMember gen bound (g ∷ gs) ids db h =
      let (rest, n) = evaluate_all-IsMember gen bound gs _ _ h in (((h, refl), rest), ap suc n)

  generations-IsMember :
      (left gen per_gen bound : ℕ) (survivors : List (Genome F)) (seen : List String) (ids : Ids)
      (db : SearchDb F)
      → gen + left ≤ bound
      → let evs =
          (generations exp w dataset_name signature describe mint m left gen per_gen survivors seen
            ids db).0 in
        All (IsMember bound) evs × (length evs ≤ left * per_gen)
  unfolding generations
  generations-IsMember zero gen per_gen bound survivors seen ids db h = (tt, omega arith)
  generations-IsMember (suc left) gen per_gen bound survivors seen ids db h =
      let rng = seeded m.base_seed gen in
      let (genomes, seen1) =
        (next_generation signature describe m.cfg survivors per_gen seen rng).0 in
      let small =
        (next_generation-IsNextGeneration signature describe m.cfg survivors per_gen seen
          rng).bounded in
      let (here, n) = evaluate_all-IsMember gen bound genomes ids db (omega arith) in
      let (evs, after) =
        evaluate_all exp w dataset_name signature describe mint m gen genomes ids db in
      let (survivors1, strategies) = select_survivors evs after.1.strategies in
      let db1 = record after.1 { strategies = strategies } in
      let (more, k) =
        generations-IsMember left (suc gen) per_gen bound survivors1 seen1 after.0 db1
          (omega arith) in
      let times : suc left * per_gen ≡ per_gen + left * per_gen = omega arith in
      (
        All-append (IsMember bound) _ _ here more,
        rw (length-append _ _) (omega (arith, times, n, k, small)),
      )

  -- A search evaluates at most so many members as there are generations times the size of one, each as a
  -- candidate of one of these generations.
  pub evolve-bounded :
      (count per_gen : ℕ) (db : SearchDb F) (outcome : EvolveOutcome F)
      → (evolve exp w dataset_name signature describe mint m count per_gen db).0 ≡ ok outcome
      → (length outcome.evaluated ≤ count * per_gen) × All (IsMember count) outcome.evaluated
  unfolding leaderboard
  evolve-bounded count per_gen db outcome done =
      let (members, n) = generations-IsMember count 0 per_gen count [] [] [] db (omega arith) in
      let evs =
        (generations exp w dataset_name signature describe mint m count 0 per_gen [] [] [] db).0 in
      rw
        (← evolve-outcome exp w dataset_name signature describe mint m count per_gen db outcome
          done)
        (
          omega (arith, length-order_by above evs, n),
          All-order_by above (IsMember count) evs members,
        )

-- ===== src/Search/Evolve/Promoted.antt =====
-- The strategies that a search promotes.
use swing_x.Prelude.{
  ℕ, zero, suc, ◌≡◌, refl, ap, ◌⊎◌, inl, inr, true, Option, none, some, List, [], ◌∷◌, ◌++◌, String,
  is_empty, OneOf, append-OneOf, Bool-cases,
}
use swing_x.Prelude.Results.{ok, ok-injective}
use swing_x.Float.{Float}
use swing_x.Core.Genome.{Genome, StrategyStatus}
use swing_x.Monitor.Store.{StrategyRow, is_promoted}
use swing_x.Validation.Harness.{Worker}
use swing_x.Store.{upsert}
use swing_x.Store.Order.{order_by-OneOf}
use swing_x.Search.Rng.{seeded}
use swing_x.Search.Score.{OosScore, Evaluated}
use swing_x.Search.Firewall.{DatasetRow}
use swing_x.Search.Survivors.{Promotes, select_survivors-promoted}
use swing_x.Search.Population.{next_generation}
use swing_x.Search.Persist.{
  SearchDb, same_strategy, upsert_strategy, insert_oos_score, save_score, persist,
}
use swing_x.Search.Evolve.{
  Manager, EvolveOutcome, Ids, above, leaderboard, evaluate_genome, evaluate_all, generations,
  evolve,
}

upsert-OneOf :
    (r : StrategyRow) (rows : List StrategyRow) (row : StrategyRow)
    → OneOf row (upsert same_strategy r rows)
    → (r ≡ row) ⊎ OneOf row rows
unfolding upsert
upsert-OneOf r [] row (inl e) = inl e
upsert-OneOf r [] row (inr o) = absurd o
upsert-OneOf r (q ∷ qs) row h = elim (Bool-cases (same_strategy r q)) [
  | inl e ↦ elim (rw e at h) [ inl s ↦ inl s | inr o ↦ inr (inr o) ]
  | inr e ↦ elim (rw e at h) [
    | inl s ↦ inr (inl s)
    | inr o ↦ elim (upsert-OneOf r qs row o) [ inl s ↦ inl s | inr o' ↦ inr (inr o') ]
  ]
]

module _ {E F : Type 0} ⦃f : Float F⦄ (exp : F → F) (w : Worker (DatasetRow F) E F)
    (dataset_name : ℕ → String) (signature describe : Genome F → String) (mint : ℕ → ℕ)
    (m : Manager F) where
  save_score-strategies :
      (ev : Evaluated F) (o : Option (OosScore F)) (db : SearchDb F)
      → (save_score m.score m.profile m.cfg.lock_risk ev o db).strategies ≡ db.strategies
  unfolding insert_oos_score
  save_score-strategies ev none db = refl
  save_score-strategies ev (some score) db = refl

  persist-OneOf :
      (ev : Evaluated F) (db : SearchDb F) (row : StrategyRow)
      → ev.strategy.status ≡ StrategyStatus.candidate
      → OneOf row (persist m.score m.profile m.cfg.lock_risk m.scanner ev db).strategies
      → is_promoted row.status ≡ true
      → OneOf row db.strategies
  unfolding persist upsert_strategy
  persist-OneOf ev db row new o p =
      elim (upsert-OneOf _ db.strategies row
        (rw (save_score-strategies ev ev.score (upsert_strategy m.scanner ev.strategy db)) at o)) [
          | inr before ↦ before
          | inl same ↦ absurd (cc (rw new at (rw (← same) at p)))
        ]

  evaluate_all-OneOf :
      (gen : ℕ) (gs : List (Genome F)) (ids : Ids) (db : SearchDb F) (row : StrategyRow)
      → let after = (evaluate_all exp w dataset_name signature describe mint m gen gs ids db).1 in
        OneOf row after.1.strategies → is_promoted row.status ≡ true → OneOf row db.strategies
  unfolding evaluate_all evaluate_genome
  evaluate_all-OneOf gen [] ids db row o p = o
  evaluate_all-OneOf gen (g ∷ gs) ids db row o p =
      persist-OneOf _ db row refl (evaluate_all-OneOf gen gs _ _ row o p) p

  Promotes-append :
      (evs more : List (Evaluated F)) (row : StrategyRow)
      → Promotes evs row ⊎ Promotes more row
      → Promotes (evs ++ more) row
  Promotes-append evs more row (inl (ev, o, e, k)) = (ev, append-OneOf evs more ev (inl o), e, k)
  Promotes-append evs more row (inr (ev, o, e, k)) = (ev, append-OneOf evs more ev (inr o), e, k)

  generations-promoted :
      (left gen per_gen : ℕ) (survivors : List (Genome F)) (seen : List String) (ids : Ids)
      (db : SearchDb F) (row : StrategyRow)
      → let (evs, after) =
          generations exp w dataset_name signature describe mint m left gen per_gen survivors seen
            ids db in
        OneOf row after.1.strategies
        → is_promoted row.status ≡ true
        → OneOf row db.strategies ⊎ Promotes evs row
  unfolding generations
  generations-promoted zero gen per_gen survivors seen ids db row o p = inl o
  generations-promoted (suc left) gen per_gen survivors seen ids db row o p =
      let (next, rng) =
        next_generation signature describe m.cfg survivors per_gen seen (seeded m.base_seed gen) in
      let (evs, after) =
        evaluate_all exp w dataset_name signature describe mint m gen next.0 ids db in
      elim (generations-promoted left (suc gen) per_gen _ next.1 _ _ row o p) [
        | inr later ↦ inr (Promotes-append evs _ row (inr later))
        | inl here ↦ elim (select_survivors-promoted evs after.1.strategies row here p) [
          | inr now ↦ inr (Promotes-append evs _ row (inl now))
          | inl before ↦ inl (evaluate_all-OneOf gen next.0 ids db row before p)
        ]
      ]

  -- A strategy that is promoted in the store after a search was promoted there before, or is a member of the
  -- outcome that may be promoted.
  pub evolve-promoted :
      (count per_gen : ℕ) (db : SearchDb F) (outcome : EvolveOutcome F) (row : StrategyRow)
      → let (result, after) =
          evolve exp w dataset_name signature describe mint m count per_gen db in
        result ≡ ok outcome
        → OneOf row after.strategies
        → is_promoted row.status ≡ true
        → OneOf row db.strategies ⊎ Promotes outcome.evaluated row
  unfolding evolve leaderboard
  evolve-promoted count per_gen db outcome row done o p =
      elim (Bool-cases (is_empty m.cfg.catalog.stats)) [
        | inl e ↦ absurd (cc (rw e at done))
        | inr e ↦ elim (generations-promoted count 0 per_gen [] [] [] db row (rw e at o) p) [
          | inl before ↦ inl before
          | inr (ev, member, may, same) ↦ inr (
            ev,
            rw (ap (λ (out : EvolveOutcome F). out.evaluated) (ok-injective (rw e at done))) at
                (order_by-OneOf above _ ev member),
            may,
            same,
          )
        ]
      ]

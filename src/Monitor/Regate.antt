-- ===== src/Monitor/Regate.antt =====
-- The nightly re-gate: what is still promoted after it, and that its inlined test is the promotion gate's.
use swing_x.Prelude.{
  ℕ, ◌≡◌, refl, sym, ◌∙◌, ◌⊎◌, inl, inr, Bool, true, false, Option, none, some, some-injective,
  List, [], ◌∷◌, ◌&&◌, map, arith, ◌==◌, All, All-map, All-OneOf, OneOf, Bool-cases,
}
use swing_x.Prelude.Int.{ℤ, pos, leb_ℤ}
use swing_x.Float.{Float}
use swing_x.Core.Genome.{StrategyStatus}
use swing_x.Validation.{ValidationResult, pbo_max, evaluate, evaluate_opt}
use swing_x.Monitor.Detect.{Thresholds, detect_regime_ood}
use swing_x.Monitor.Store.{
  Db, StrategyRow, ScoreRow, is_promoted, later, latest_score, gate_inputs, add_input,
  load_promoted_gate_inputs, set_row, write_event, set_strategy_status, apply_strategy_decision,
  load_strategies, load_source_freshness, count_recent_ood,
}
use swing_x.Monitor.Daily.{
  Run, nothing_fired, check_strategies, regate_one, regate_all, check_sources, metrics_clear,
  passes, run_daily_with,
}
use swing_x.Monitor.Frame.{check_strategies-scores, check_sources-strategies, on_ood-strategies}

and_assoc : (a b c d : Bool) → ((a && (b && c)) && d) ≡ (a && (b && (c && d)))
and_assoc true true true d = refl
and_assoc true true false d = refl
and_assoc true false c d = refl
and_assoc false b c d = refl

module _ {F : Type 0} ⦃f : Float F⦄ where
  open f use {of_ℕ, lt}

  -- A validation result with the metrics of a stored score, if the score has all three.
  abbrev restore :
      ValidationResult F → ℤ → Option F → Option F → Option F → Option (ValidationResult F)
  restore v regimes (some dsr) (some pbo) (some expectancy) = some (record v {
    dsr = dsr;
    pbo = pbo;
    oos_expectancy_cost_aware = expectancy;
    n_regimes_positive = regimes;
  })
  restore v regimes _ _ _ = none

  abbrev pub restored : ValidationResult F → ScoreRow F → Option (ValidationResult F)
  restored v g = restore v g.n_regimes_positive g.dsr g.pbo g.oos_expectancy_cost_aware

  metrics_clear-restore :
      (v : ValidationResult F) (regimes : ℤ) (a b c : Option F)
      → (metrics_clear a b c && leb_ℤ (pos 2) regimes)
        ≡ (evaluate_opt (restore v regimes a b c)).passed
  unfolding evaluate_opt evaluate
  metrics_clear-restore v regimes (some a) (some b) (some c) =
      and_assoc (lt (of_ℕ 0) a) (lt b pbo_max) (lt (of_ℕ 0) c) (leb_ℤ (pos 2) regimes)
  metrics_clear-restore v regimes (some a) (some b) none = refl
  metrics_clear-restore v regimes (some a) none c = refl
  metrics_clear-restore v regimes none b c = refl

  -- The test inlined in the monitor is the promotion gate, evaluated so as to fail closed: on a stored score
  -- it says what the gate says of a result with those metrics, or of no result where a metric is absent.
  pub passes-evaluate_opt :
      (v : ValidationResult F) (g : ScoreRow F) → passes g ≡ (evaluate_opt (restored v g)).passed
  unfolding passes
  passes-evaluate_opt v g =
      metrics_clear-restore v g.n_regimes_positive g.dsr g.pbo g.oos_expectancy_cost_aware

  later-id :
      (q : ScoreRow F) (o : Option (ScoreRow F)) (id : ℕ)
      → q.strategy_id ≡ id
      → ((s : ScoreRow F) → o ≡ some s → s.strategy_id ≡ id)
      → (later q o).strategy_id ≡ id
  later-id q none id e h = e
  later-id q (some p) id e h = ground (arith, h p refl)

  latest_score-id :
      (ss : List (ScoreRow F)) (id : ℕ) (s : ScoreRow F)
      → latest_score ss id ≡ some s
      → s.strategy_id ≡ id
  unfolding latest_score
  latest_score-id [] id s h = cc
  latest_score-id (q ∷ ss) id s h = elim (Bool-cases (q.strategy_id == id)) [
    | inl e ↦
        let found = some-injective _ _ (rw e at h) in
        rw (← found) (later-id q (latest_score ss id) id (ground arith) (latest_score-id ss id))
    | inr e ↦ latest_score-id ss id s (rw e at h)
  ]

  -- A score of the list fails the gate, and it is the strategy's.
  abbrev Fails : List (ScoreRow F) → StrategyRow → Type 0
  Fails [] r = ⊥
  Fails (g ∷ gs) r = ((passes g ≡ false) × (g.strategy_id ≡ r.strategy_id)) ⊎ Fails gs r

  -- A promoted strategy passes on its latest score, or the scores still to test have one that it fails.
  abbrev IsGated : List (ScoreRow F) → List (ScoreRow F) → StrategyRow → Type 0
  IsGated scores gs r =
      (s : ScoreRow F)
      → is_promoted r.status ≡ true
      → latest_score scores r.strategy_id ≡ some s
      → (passes s ≡ true) ⊎ Fails gs r

  Fails-cons :
      (scores gs : List (ScoreRow F)) (g : ScoreRow F) (r : StrategyRow)
      → IsGated scores gs r
      → IsGated scores (g ∷ gs) r
  Fails-cons scores gs g r h s p l = elim (h s p l) [ inl t ↦ inl t | inr u ↦ inr (inr u) ]

  add_input-IsGated :
      (scores : List (ScoreRow F)) (r : StrategyRow) (rs : List StrategyRow)
      (rest : List (ScoreRow F))
      → All (IsGated scores rest) rs
      → (b : Bool) (o : Option (ScoreRow F)) → is_promoted r.status ≡ b
      → latest_score scores r.strategy_id ≡ o
      → All (IsGated scores (add_input b o rest)) (r ∷ rs)
  add_input-IsGated scores r rs rest h false o e found = ((λ s p l. cc), h)
  add_input-IsGated scores r rs rest h true none e found = ((λ s p l. cc), h)
  add_input-IsGated scores r rs rest h true (some g) e found = (
    λ s p l. elim (Bool-cases (passes g)) [
      | inl t ↦ inl (rw (some-injective _ _ (sym found ∙ l)) at t)
      | inr t ↦ inr (inl (t, latest_score-id scores r.strategy_id g found))
    ],
    All-map (IsGated scores rest) (IsGated scores (g ∷ rest)) rs (Fails-cons scores rest g) h,
  )

  gate_inputs-IsGated :
      (scores : List (ScoreRow F)) (rs : List StrategyRow)
      → All (IsGated scores (gate_inputs scores rs)) rs
  unfolding gate_inputs
  gate_inputs-IsGated scores [] = tt
  gate_inputs-IsGated scores (r ∷ rs) =
      add_input-IsGated scores r rs _ (gate_inputs-IsGated scores rs) _ _ refl refl

  -- A score that passes is struck off the list.
  strike-IsGated :
      (scores gs : List (ScoreRow F)) (g : ScoreRow F) (rs : List StrategyRow)
      → passes g ≡ true
      → All (IsGated scores (g ∷ gs)) rs
      → All (IsGated scores gs) rs
  strike-IsGated scores gs g rs e h =
      All-map (IsGated scores (g ∷ gs)) (IsGated scores gs) rs
        (λ r k s p l. elim (k s p l) [
          | inl t ↦ inl t
          | inr (inl (t, same)) ↦ cc
          | inr (inr u) ↦ inr u
        ])
        h

  -- The strategy of a score that fails is demoted, and the score struck off.
  demote-IsGated :
      (scores gs : List (ScoreRow F)) (g : ScoreRow F) (rs : List StrategyRow)
      → All (IsGated scores (g ∷ gs)) rs
      → All (IsGated scores gs) (map (set_row g.strategy_id StrategyStatus.demoted) rs)
  demote-IsGated scores gs g [] h = tt
  demote-IsGated scores gs g (r ∷ rs) (k, h) = (
    elim (Bool-cases (r.strategy_id == g.strategy_id)) [
      | inl e ↦ rw e (λ s p l. cc)
      | inr e ↦ rw e (λ s p l. elim (k s p l) [
        | inl t ↦ inl t
        | inr (inl (t, same)) ↦ absurd (ground (arith, same, e))
        | inr (inr u) ↦ inr u
      ])
    ],
    demote-IsGated scores gs g rs h,
  )

  regate_all-IsGated :
      (now : ℤ) (scores gs : List (ScoreRow F)) (x : Run F)
      → All (IsGated scores gs) x.0.strategies
      → All (IsGated scores []) (regate_all now gs x).0.strategies
  unfolding regate_all apply_strategy_decision set_strategy_status write_event
  regate_all-IsGated now scores [] x h = h
  regate_all-IsGated now scores (g ∷ gs) (db, r) h =
      regate_all-IsGated now scores gs (regate_one now g (db, r)) (elim (Bool-cases (passes g)) [
        | inl e ↦ rw e (strike-IsGated scores gs g db.strategies e h)
        | inr e ↦ rw e (demote-IsGated scores gs g db.strategies h)
      ])

  -- After a daily pass, whatever the detectors did, every strategy that is still promoted passes the
  -- promotion gate on its latest score, if it has one.
  pub run_daily_with-passes :
      (t : Thresholds F) (now : ℤ) (db : Db F) (r : StrategyRow) (s : ScoreRow F)
      → OneOf r (run_daily_with t now db).0.strategies
      → is_promoted r.status ≡ true
      → latest_score db.scores r.strategy_id ≡ some s
      → passes s ≡ true
  unfolding run_daily_with load_promoted_gate_inputs
  run_daily_with-passes t now db r s here promoted latest =
      let checked = check_strategies t now (load_strategies db) (db, nothing_fired) in
      let regated = regate_all now (gate_inputs checked.0.scores checked.0.strategies) checked in
      let gated =
        regate_all-IsGated now checked.0.scores (gate_inputs checked.0.scores checked.0.strategies)
          checked (gate_inputs-IsGated checked.0.scores checked.0.strategies) in
      let same_scores = check_strategies-scores t now (load_strategies db) (db, nothing_fired) in
      let sources = load_source_freshness regated.0 in
      let fresh = check_sources t now sources regated in
      let ood = detect_regime_ood (count_recent_ood fresh.0 now) t in
      let same_rows =
        on_ood-strategies now ood fresh ∙ check_sources-strategies t now sources regated in
      elim (All-OneOf (IsGated checked.0.scores []) regated.0.strategies r gated
        (rw same_rows at here) s promoted (rw same_scores latest)) [
          | inl e ↦ e
          | inr never ↦ absurd never
        ]

-- ===== src/Monitor/Condemned.antt =====
-- What one strategy's detectors do to the statuses.
use swing_x.Prelude.{
  ℕ, ◌≡◌, refl, ap, ◌∙◌, inl, inr, Bool, Option, none, some, List, [], ◌∷◌, map, String, ◌==◌,
  Bool-cases,
}
use swing_x.Prelude.Int.{ℤ}
use swing_x.Float.{Float}
use swing_x.Core.Genome.{StrategyStatus}
use swing_x.Monitor.Detect.{Decision, Thresholds, detect_drawdown, detect_calibration, detect_decay}
use swing_x.Monitor.Firing.{
  detect_drawdown-disable, detect_decay-demote, detect_calibration-recalibrate,
}
use swing_x.Monitor.Store.{
  Db, StrategyRow, StratRow, set_row, new_status, set_status, write_event, set_strategy_status,
  apply_strategy_decision, load_recent_trades,
}
use swing_x.Monitor.Daily.{
  Run, check_strategy, on_divergence, on_drawdown, on_calibration, on_decay, divergence_of,
  realized_r, convictions, wins,
}

-- Rewriting the rows of one strategy, where there is a status to set.
abbrev pub set_rows : ℕ → Option StrategyStatus → List StrategyRow → List StrategyRow
set_rows id none rows = rows
set_rows id (some s) rows = map (set_row id s) rows

-- The later of two statuses.
abbrev pub over : Option StrategyStatus → Option StrategyStatus → Option StrategyStatus
over none o = o
over (some s) o = some s

set_row-twice :
    (id : ℕ) (s q : StrategyStatus) (r : StrategyRow)
    → set_row id s (set_row id q r) ≡ set_row id s r
set_row-twice id s q r = elim (Bool-cases (r.strategy_id == id)) [
  | inl e ↦ rw e (rw e refl)
  | inr e ↦ rw e (rw e refl)
]

set_rows-twice :
    (id : ℕ) (s q : StrategyStatus) (rows : List StrategyRow)
    → map (set_row id s) (map (set_row id q) rows) ≡ map (set_row id s) rows
set_rows-twice id s q [] = refl
set_rows-twice id s q (r ∷ rows) = cong2 (set_row-twice id s q r) (set_rows-twice id s q rows)
  where
    cong2 : {a b : StrategyRow} {xs ys : List StrategyRow} → a ≡ b → xs ≡ ys → a ∷ xs ≡ b ∷ ys
    cong2 p q = cc

set_rows-over :
    (id : ℕ) (o p : Option StrategyStatus) (rows : List StrategyRow)
    → set_rows id o (set_rows id p rows) ≡ set_rows id (over o p) rows
set_rows-over id none p rows = refl
set_rows-over id (some s) none rows = refl
set_rows-over id (some s) (some q) rows = set_rows-twice id s q rows

module _ {F : Type 0} where
  -- The status that a decision sets.
  abbrev pub status_of : Option (Decision F) → Option StrategyStatus
  status_of none = none
  status_of (some d) = new_status d.action

  apply-strategies :
      (now : ℤ) (id : ℕ) (detector : String) (d : Decision F) (db : Db F)
      → (apply_strategy_decision now id detector d db).strategies
        ≡ set_rows id (new_status d.action) db.strategies
  unfolding apply_strategy_decision set_strategy_status write_event
  apply-strategies now id detector d db = go (new_status d.action)
    where
      go :
          (o : Option StrategyStatus)
          → (set_status id o (
              write_event now (some id) detector d.metric_value d.threshold d.action db)).strategies
            ≡ set_rows id o db.strategies
      go none = refl
      go (some s) = refl

module _ {F : Type 0} ⦃f : Float F⦄ (now : ℤ) (id : ℕ) where
  on_divergence-strategies :
      (o : Option (Decision F)) (x : Run F)
      → (on_divergence now id o x).0.strategies ≡ set_rows id (status_of o) x.0.strategies
  on_divergence-strategies none x = refl
  on_divergence-strategies (some d) (db, r) =
      apply-strategies now id "backtest_vs_live_divergence" d db

  on_drawdown-strategies :
      (o : Option (Decision F)) (x : Run F)
      → (on_drawdown now id o x).0.strategies ≡ set_rows id (status_of o) x.0.strategies
  unfolding write_event
  on_drawdown-strategies none x = refl
  on_drawdown-strategies (some d) (db, r) = apply-strategies now id "drawdown_breach" d db

  on_calibration-strategies :
      (o : Option (Decision F)) (x : Run F)
      → (on_calibration now id o x).0.strategies ≡ set_rows id (status_of o) x.0.strategies
  on_calibration-strategies none x = refl
  on_calibration-strategies (some d) (db, r) = apply-strategies now id "calibration_break" d db

  on_decay-strategies :
      (o : Option (Decision F)) (x : Run F)
      → (on_decay now id o x).0.strategies ≡ set_rows id (status_of o) x.0.strategies
  on_decay-strategies none x = refl
  on_decay-strategies (some d) (db, r) = apply-strategies now id "decay" d db

  -- The four in their order.
  all-strategies :
      (dv dd cal dec : Option (Decision F)) (x : Run F)
      → (on_decay now id dec (
          on_calibration now id cal
            (on_drawdown now id dd (on_divergence now id dv x)))).0.strategies
        ≡ set_rows id
            (over (status_of dec) (over (status_of cal) (over (status_of dd) (status_of dv))))
            x.0.strategies
  all-strategies dv dd cal dec x =
      let x1 = on_divergence now id dv x in
      let x2 = on_drawdown now id dd x1 in
      let x3 = on_calibration now id cal x2 in
      let e1 = on_divergence-strategies dv x in
      let e2 =
        on_drawdown-strategies dd x1
        ∙ (ap (set_rows id (status_of dd)) e1 ∙ set_rows-over id _ _ x.0.strategies) in
      let e3 =
        on_calibration-strategies cal x2
        ∙ (ap (set_rows id (status_of cal)) e2 ∙ set_rows-over id _ _ x.0.strategies) in
      on_decay-strategies dec x3
      ∙ (ap (set_rows id (status_of dec)) e3 ∙ set_rows-over id _ _ x.0.strategies)

-- The verdict of the three detectors that set a status: decay outranks a drawdown breach, which outranks
-- a quarantine.
abbrev pub verdict :
    {F : Type 0}
    → Option (Decision F)
    → Option (Decision F)
    → Option (Decision F)
    → Option StrategyStatus
verdict divergence drawdown (some d) = some StrategyStatus.demoted
verdict divergence (some d) none = some StrategyStatus.retired
verdict divergence none none = status_of divergence

module _ {F : Type 0} ⦃f : Float F⦄ where
  over-verdict :
      (t : Thresholds F) (rs cs : List F) (wins : List Bool) (dv dd cal dec : Option (Decision F))
      → detect_drawdown rs t ≡ dd
      → detect_calibration cs wins t ≡ cal
      → detect_decay rs t ≡ dec
      → over (status_of dec) (over (status_of cal) (over (status_of dd) (status_of dv)))
        ≡ verdict dv dd dec
  over-verdict t rs cs wins dv dd (some c) dec hd hc he =
      rw (detect_calibration-recalibrate cs wins t c hc) (over-verdict' dd dec hd he)
    where
      over-verdict' :
          (dd dec : Option (Decision F))
          → detect_drawdown rs t ≡ dd
          → detect_decay rs t ≡ dec
          → over (status_of dec) (over (status_of dd) (status_of dv)) ≡ verdict dv dd dec
      over-verdict' dd (some d) hd he = rw (detect_decay-demote rs t d he) refl
      over-verdict' (some d) none hd he = rw (detect_drawdown-disable rs t d hd) refl
      over-verdict' none none hd he = refl
  over-verdict t rs cs wins dv dd none (some d) hd hc he = rw (detect_decay-demote rs t d he) refl
  over-verdict t rs cs wins dv (some d) none none hd hc he =
      rw (detect_drawdown-disable rs t d hd) refl
  over-verdict t rs cs wins dv none none none hd hc he = refl

  -- One strategy's detectors set the status of that strategy's rows, and of no other, to their verdict on
  -- its recent trades: demoted where decay fires, else retired where a drawdown breach fires, else
  -- quarantined where the divergence asks for it, else what it was.
  pub check_strategy-verdict :
      (t : Thresholds F) (now : ℤ) (s : StratRow F) (x : Run F)
      → let rs = realized_r (load_recent_trades x.0 s.strategy_id) in
        (check_strategy t now s x).0.strategies
        ≡ set_rows s.strategy_id
            (verdict
              (divergence_of t rs s.oos_expectancy)
              (detect_drawdown rs t)
              (detect_decay rs t))
            x.0.strategies
  unfolding check_strategy
  check_strategy-verdict t now s x =
      let trades = load_recent_trades x.0 s.strategy_id in
      let rs = realized_r trades in
      let dv = divergence_of t rs s.oos_expectancy in
      let dd = detect_drawdown rs t in
      let cal = detect_calibration (convictions trades) (wins trades) t in
      let dec = detect_decay rs t in
      all-strategies now s.strategy_id dv dd cal dec x
      ∙ ap (λ o. set_rows s.strategy_id o x.0.strategies)
          (over-verdict t rs (convictions trades) (wins trades) dv dd cal dec refl refl refl)

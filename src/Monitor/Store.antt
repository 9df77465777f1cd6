-- ===== src/Monitor/Store.antt =====
-- The tables that the monitor reads and writes, its queries, and its side effects, of
-- crates/se-monitor/src/lib.rs. A query takes its rows in the table's order; times are in nanoseconds;
-- a query that fails is not modelled, nor is the text of a detail.
use swing_x.Prelude.{
  ℕ, ◌*◌, ◌^◌, Bool, true, false, not, ◌&&◌, ◌||◌, Option, none, some, List, [], ◌∷◌, ◌++◌, map,
  String, str_eq, ◌==◌, if◌then◌else◌, keep_if, length,
}
use swing_x.Prelude.Int.{ℤ, pos, ◌-ℤ◌, leb_ℤ, ltb_ℤ}
use swing_x.Core.Genome.{StrategyStatus}
use swing_x.Monitor.Detect.{MonitorAction, Decision}

pub record StrategyRow : Type 0 where
  pub strategy_id : ℕ
  pub status : StrategyStatus

pub record ScoreRow (F : Type 0) : Type 0 where
  pub strategy_id : ℕ
  pub evaluated_at : ℤ
  pub dsr : Option F
  pub pbo : Option F
  pub oos_expectancy_cost_aware : Option F
  pub n_regimes_positive : ℤ

-- A row of the journal, with the conviction of its signal if it has one.
pub record TradeRow (F : Type 0) : Type 0 where
  pub strategy_id : ℕ
  pub mode : String
  pub entry_ts : ℤ
  pub pnl_r : Option F
  pub conviction : Option F

pub record Event (F : Type 0) : Type 0 where
  pub ts : ℤ
  pub strategy_id : Option ℕ
  pub detector : String
  pub metric_value : F
  pub threshold : F
  pub action : MonitorAction

-- `clock` is the database's `now()`. Sources and regimes are pairs of a source or a label and a time.
pub record Db (F : Type 0) : Type 0 where
  pub clock : ℤ
  pub strategies : List StrategyRow
  pub scores : List (ScoreRow F)
  pub trades : List (TradeRow F)
  pub bars : List (String × ℤ)
  pub features_pit : List (String × ℤ)
  pub regimes : List (String × ℤ)
  pub events : List (Event F)

-- A strategy with its latest score, where it has one.
pub record StratRow (F : Type 0) : Type 0 where
  pub strategy_id : ℕ
  pub oos_expectancy : Option F

abbrev pub day : ℕ
day = 86_400 * 10 ^ 9

abbrev pub ood_window_days : ℕ
ood_window_days = 5

abbrev pub trade_window_days : ℕ
trade_window_days = 60

abbrev pub is_retired : StrategyStatus → Bool
is_retired StrategyStatus.retired = true
is_retired _ = false

abbrev pub is_promoted : StrategyStatus → Bool
is_promoted StrategyStatus.promoted = true
is_promoted _ = false

-- `GROUP BY source` with the maximum.
unfoldable pub merge_source : String × ℤ → List (String × ℤ) → List (String × ℤ)
merge_source (s, t) [] = (s, t) ∷ []
merge_source (s, t) ((r, u) ∷ rows) =
    let rest = merge_source (s, t) rows in
    if str_eq s r then (r, if ltb_ℤ u t then t else u) ∷ rows else (r, u) ∷ rest

unfoldable pub latest_by_source : List (String × ℤ) → List (String × ℤ)
unfolding merge_source
latest_by_source [] = []
latest_by_source (row ∷ rows) = merge_source row (latest_by_source rows)

abbrev pub set_row : ℕ → StrategyStatus → StrategyRow → StrategyRow
set_row id status r = if r.strategy_id == id then record r { status = status } else r

-- The status that an action sets.
abbrev pub new_status : MonitorAction → Option StrategyStatus
new_status MonitorAction.quarantine = some StrategyStatus.quarantined
new_status MonitorAction.disable = some StrategyStatus.retired
new_status MonitorAction.retire = some StrategyStatus.retired
new_status MonitorAction.demote = some StrategyStatus.demoted
new_status _ = none

module _ {F : Type 0} where
  abbrev pub later : ScoreRow F → Option (ScoreRow F) → ScoreRow F
  later s none = s
  later s (some q) = if ltb_ℤ s.evaluated_at q.evaluated_at then q else s

  -- `ORDER BY evaluated_at DESC LIMIT 1`
  unfoldable pub latest_score : List (ScoreRow F) → ℕ → Option (ScoreRow F)
  latest_score [] id = none
  latest_score (s ∷ ss) id =
      let rest = latest_score ss id in if s.strategy_id == id then some (later s rest) else rest

  abbrev score_expectancy : Option (ScoreRow F) → Option F
  score_expectancy none = none
  score_expectancy (some s) = s.oos_expectancy_cost_aware

  unfoldable pub load_strategies : Db F → List (StratRow F)
  load_strategies db =
      map
        (λ r. record {
          strategy_id = r.strategy_id;
          oos_expectancy = score_expectancy (latest_score db.scores r.strategy_id);
        })
        (keep_if (λ r. not (is_retired r.status)) db.strategies)

  -- A row of the join: a promoted strategy that has a score.
  abbrev pub add_input : Bool → Option (ScoreRow F) → List (ScoreRow F) → List (ScoreRow F)
  add_input true (some s) rest = s ∷ rest
  add_input _ _ rest = rest

  unfoldable pub gate_inputs : List (ScoreRow F) → List StrategyRow → List (ScoreRow F)
  gate_inputs scores [] = []
  gate_inputs scores (r ∷ rs) =
      add_input (is_promoted r.status) (latest_score scores r.strategy_id) (gate_inputs scores rs)

  unfoldable pub load_promoted_gate_inputs : Db F → List (ScoreRow F)
  unfolding gate_inputs
  load_promoted_gate_inputs db = gate_inputs db.scores db.strategies

  unfoldable pub insert_newest : TradeRow F → List (TradeRow F) → List (TradeRow F)
  insert_newest t [] = t ∷ []
  insert_newest t (u ∷ us) =
      let rest = insert_newest t us in if ltb_ℤ t.entry_ts u.entry_ts then u ∷ rest else t ∷ u ∷ us

  unfoldable pub newest_first : List (TradeRow F) → List (TradeRow F)
  unfolding insert_newest
  newest_first [] = []
  newest_first (t ∷ ts) = insert_newest t (newest_first ts)

  abbrev pub is_recent : Db F → ℕ → TradeRow F → Bool
  is_recent db id t =
      (t.strategy_id == id)
      && ((str_eq t.mode "paper" || str_eq t.mode "live")
          && leb_ℤ (db.clock -ℤ pos (trade_window_days * day)) t.entry_ts)

  unfoldable pub load_recent_trades : Db F → ℕ → List (TradeRow F)
  unfolding newest_first
  load_recent_trades db id = newest_first (keep_if (is_recent db id) db.trades)

  unfoldable pub load_source_freshness : Db F → List (String × ℤ)
  unfolding latest_by_source
  load_source_freshness db = latest_by_source db.bars ++ latest_by_source db.features_pit

  unfoldable pub count_recent_ood : Db F → ℤ → ℤ
  count_recent_ood db now =
      let since = now -ℤ pos (ood_window_days * day) in
      pos (length (keep_if (λ (l, t). str_eq l "out_of_distribution" && leb_ℤ since t) db.regimes))

  unfoldable pub write_event : ℤ → Option ℕ → String → F → F → MonitorAction → Db F → Db F
  write_event now id detector metric_value threshold action db = record db {
    events =
        db.events
        ++ record {
          ts = now;
          strategy_id = id;
          detector = detector;
          metric_value = metric_value;
          threshold = threshold;
          action = action;
        }
          ∷ [];
  }

  unfoldable pub set_strategy_status : ℕ → StrategyStatus → Db F → Db F
  set_strategy_status id status db = record db {
    strategies = map (set_row id status) db.strategies;
  }

  abbrev pub set_status : ℕ → Option StrategyStatus → Db F → Db F
  set_status id none db = db
  set_status id (some status) db = set_strategy_status id status db

  unfoldable pub apply_strategy_decision : ℤ → ℕ → String → Decision F → Db F → Db F
  apply_strategy_decision now id detector d db =
      set_status id (new_status d.action)
        (write_event now (some id) detector d.metric_value d.threshold d.action db)

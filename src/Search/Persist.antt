-- ===== src/Search/Persist.antt =====
-- The rows of strategies and scores, crates/se-search/src/persist.rs, with crates/se-core/src/scanner.rs. The
-- table of strategies is kept as two lists: the statuses, as the monitor has them, and the other columns.
pub mod Roundtrip
use swing_x.Prelude.{
  ℕ, ◌-◌, ◌^◌, Bool, true, false, Option, none, some, List, [], ◌∷◌, ◌++◌, String, ◌==◌, ltb,
  if◌then◌else◌,
}
use swing_x.Prelude.Int.{ℤ, pos, negsuc}
use swing_x.Core.Horizon.{HorizonProfile, as_str}
use swing_x.Core.Risk.{RiskModel}
use swing_x.Core.Genome.{Genome, Strategy, StrategyStatus}
use swing_x.Monitor.Store.{StrategyRow}
use swing_x.Store.{upsert}
use swing_x.Search.Score.{OosScore, ScoreConfig, Evaluated}

pub data Scanner : Type 0 where
  etf equity : Scanner

pub record StrategyDetail (F : Type 0) : Type 0 where
  pub strategy_id : ℕ
  pub horizon : String
  pub genome : Genome F
  pub parent_id : Option ℕ
  pub generation : ℤ
  pub scanner : Scanner

-- The provenance that is stored with a score.
pub record FoldRow (F : Type 0) : Type 0 where
  pub n_groups : ℕ
  pub k_test_groups : ℕ
  pub n_trials : ℕ
  pub embargo_bars : ℕ
  pub purge : Bool
  pub n_entries : ℕ
  pub risk : RiskModel F
  pub lock_risk : Bool

pub record SearchDb (F : Type 0) : Type 0 where
  pub strategies : List StrategyRow
  pub details : List (StrategyDetail F)
  pub scores : List (OosScore F × FoldRow F)

-- `generation as i32`, and `generation.max(0) as u32` where it is read.
abbrev pub as_i32 : ℕ → ℤ
as_i32 n = if ltb n (2 ^ 31) then pos n else negsuc (2 ^ 32 - n - 1)

abbrev pub max_0 : ℤ → ℕ
max_0 (pos n) = n
max_0 (negsuc n) = 0

abbrev pub same_strategy : StrategyRow → StrategyRow → Bool
same_strategy a b = a.strategy_id == b.strategy_id

unfoldable pub find_status : ℕ → List StrategyRow → Option StrategyStatus
find_status id [] = none
find_status id (r ∷ rs) =
    let rest = find_status id rs in if r.strategy_id == id then some r.status else rest

module _ {F : Type 0} where
  abbrev pub detail_of : Scanner → Strategy F → StrategyDetail F
  detail_of scanner s = record {
    strategy_id = s.id;
    horizon = as_str s.genome.horizon;
    genome = s.genome;
    parent_id = s.parent;
    generation = as_i32 s.generation;
    scanner = scanner;
  }

  -- What a conflict updates: neither the horizon nor the scanner.
  abbrev pub updated : StrategyDetail F → StrategyDetail F → StrategyDetail F
  updated new old = record old {
    genome = new.genome;
    parent_id = new.parent_id;
    generation = new.generation;
  }

  unfoldable pub write_detail : StrategyDetail F → List (StrategyDetail F) → List (StrategyDetail F)
  write_detail d [] = d ∷ []
  write_detail d (old ∷ ds) =
      let rest = write_detail d ds in
      if d.strategy_id == old.strategy_id then updated d old ∷ ds else old ∷ rest

  unfoldable pub upsert_strategy : Scanner → Strategy F → SearchDb F → SearchDb F
  upsert_strategy scanner s db = record db {
    strategies =
        upsert same_strategy (record { strategy_id = s.id; status = s.status }) db.strategies;
    details = write_detail (detail_of scanner s) db.details;
  }

  unfoldable pub find_detail : ℕ → List (StrategyDetail F) → Option (StrategyDetail F)
  find_detail id [] = none
  find_detail id (d ∷ ds) =
      let rest = find_detail id ds in if d.strategy_id == id then some d else rest

  abbrev pub strategy_of :
      ℕ → Option (StrategyDetail F) → Option StrategyStatus → Option (Strategy F)
  strategy_of id (some d) (some status) = some (record {
    id = id;
    genome = d.genome;
    status = status;
    generation = max_0 d.generation;
    parent = d.parent_id;
  })
  strategy_of id _ _ = none

  unfoldable pub load_strategy : ℕ → SearchDb F → Option (Strategy F)
  load_strategy id db = strategy_of id (find_detail id db.details) (find_status id db.strategies)

  unfoldable pub insert_oos_score : OosScore F → FoldRow F → SearchDb F → SearchDb F
  insert_oos_score score fold db = record db { scores = db.scores ++ (score, fold) ∷ [] }

  abbrev pub fold_row : ScoreConfig → HorizonProfile F → Bool → Evaluated F → FoldRow F
  fold_row score profile lock_risk ev = record {
    n_groups = score.n_groups;
    k_test_groups = score.k_test_groups;
    n_trials = score.n_trials;
    embargo_bars = profile.embargo_bars;
    purge = true;
    n_entries = ev.n_entries;
    risk = ev.strategy.genome.risk;
    lock_risk = lock_risk;
  }

  abbrev pub save_score :
      ScoreConfig
      → HorizonProfile F
      → Bool
      → Evaluated F
      → Option (OosScore F)
      → SearchDb F
      → SearchDb F
  save_score score profile lock_risk ev none db = db
  save_score score profile lock_risk ev (some s) db =
      insert_oos_score s (fold_row score profile lock_risk ev) db

  -- `persist` of population.rs: the strategy and, if there is one, its score.
  unfoldable pub persist :
      ScoreConfig → HorizonProfile F → Bool → Scanner → Evaluated F → SearchDb F → SearchDb F
  persist score profile lock_risk scanner ev db =
      save_score score profile lock_risk ev ev.score (upsert_strategy scanner ev.strategy db)

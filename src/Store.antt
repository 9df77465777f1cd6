-- ===== src/Store.antt =====
-- The tables of crates/se-store and their writes: models.rs and store.rs. A statement is a function on the
-- tables; that the database cannot be reached is not modelled.
pub mod Upsert
pub mod Pit
pub mod Order
pub mod Sorted
pub mod Known
pub mod Tests
use swing_x.Prelude.{
  ℕ, zero, suc, ◌+◌, Bool, true, false, not, ◌&&◌, ◌||◌, Option, none, some, List, [], ◌∷◌, ◌++◌,
  String, str_eq, ◌==◌, if◌then◌else◌, length, take, drop, any, keep_if, map,
}
use swing_x.Prelude.Int.{ℤ}
use swing_x.Prelude.Results.{Result, ok, err}
use swing_x.Core.Layer.{Layer}
use swing_x.Core.Market.{Bar}
use swing_x.Regime.{RegimeLabel}

-- How far behind real time the period of a value sits.
pub data LeadTimeTag : Type 0 where
  realtime : LeadTimeTag
  end_of_day : LeadTimeTag
  next_open : LeadTimeTag
  lagged_days : ℤ → LeadTimeTag

-- A value of a layer, with its provenance.
pub record Feature (F : Type 0) : Type 0 where
  pub key : String
  pub value : F
  pub layer : Layer
  pub as_of : ℕ
  pub lead_time : LeadTimeTag
  pub source : String

-- A row of `bars`, of `features_pit`, of `macro_series_pit` and of `regimes`.
pub record BarRow (F : Type 0) : Type 0 where
  pub cadence : String
  pub bar : Bar F
  pub source : String
  pub as_of : ℕ

pub record FeatureWrite (F : Type 0) : Type 0 where
  pub ticker : String
  pub feature_key : String
  pub layer : Layer
  pub decision_ts : ℕ
  pub as_of : ℕ
  pub value : F
  pub lead_time : LeadTimeTag
  pub source : String

pub record MacroWrite (F : Type 0) : Type 0 where
  pub series : String
  pub ts : ℕ
  pub as_of : ℕ
  pub value : F
  pub lead_time : LeadTimeTag
  pub source : String

pub record RegimeRow (F : Type 0) : Type 0 where
  pub ticker : String
  pub decision_ts : ℕ
  pub as_of : ℕ
  pub label : RegimeLabel
  pub prob_map : List (RegimeLabel × F)
  pub model_id : Option ℕ

pub record Tables (F : Type 0) : Type 0 where
  pub bars : List (BarRow F)
  pub features : List (FeatureWrite F)
  pub macros : List (MacroWrite F)
  pub regimes : List (RegimeRow F)

pub data StoreError : Type 0 where
  same_row_twice : StoreError

module _ {R : Type 0} (same : R → R → Bool) where
  -- `ON CONFLICT (key) DO UPDATE`: the row with the key is replaced, or the row is added.
  unfoldable pub upsert : R → List R → List R
  upsert r [] = r ∷ []
  upsert r (q ∷ qs) = let rest = upsert r qs in if same r q then r ∷ qs else q ∷ rest

  unfoldable pub upsert_all : List R → List R → List R
  upsert_all [] table = table
  upsert_all (r ∷ rs) table = upsert_all rs (upsert r table)

  unfoldable pub repeats : List R → Bool
  repeats [] = false
  repeats (r ∷ rs) = any (same r) rs || repeats rs

  -- One statement, which the database refuses where it would update a row twice.
  unfoldable pub execute : List R → List R → List R × Result StoreError ℕ
  execute rows table =
      if repeats rows
      then (table, err same_row_twice)
      else (upsert_all rows table, ok (length rows))

  abbrev pub add_count : ℕ → List R × Result StoreError ℕ → List R × Result StoreError ℕ
  add_count n (table, err why) = (table, err why)
  add_count n (table, ok m) = (table, ok (n + m))

  abbrev pub and_then :
      List R × Result StoreError ℕ
      → (List R → List R × Result StoreError ℕ)
      → List R × Result StoreError ℕ
  and_then (table, err why) rest = (table, err why)
  and_then (table, ok n) rest = add_count n (rest table)

  -- The statements of the chunks up to the first that fails. There are at most as many as rows.
  unfoldable pub in_chunks : ℕ → ℕ → List R → List R → List R × Result StoreError ℕ
  in_chunks size zero rows table = (table, ok 0)
  in_chunks size (suc left) [] table = (table, ok 0)
  in_chunks size (suc left) (r ∷ rs) table =
      and_then (execute (take size (r ∷ rs)) table) (in_chunks size left (drop size (r ∷ rs)))

module _ {F : Type 0} where
  abbrev pub same_bar : BarRow F → BarRow F → Bool
  same_bar a b =
      str_eq a.bar.ticker b.bar.ticker && (str_eq a.cadence b.cadence && a.bar.ts == b.bar.ts)

  abbrev pub same_feature : FeatureWrite F → FeatureWrite F → Bool
  same_feature a b =
      str_eq a.ticker b.ticker
      && (str_eq a.feature_key b.feature_key
          && (a.decision_ts == b.decision_ts && a.as_of == b.as_of))

  abbrev pub same_macro : MacroWrite F → MacroWrite F → Bool
  same_macro a b = str_eq a.series b.series && (a.ts == b.ts && a.as_of == b.as_of)

  abbrev pub same_regime : RegimeRow F → RegimeRow F → Bool
  same_regime a b =
      str_eq a.ticker b.ticker && (a.decision_ts == b.decision_ts && a.as_of == b.as_of)

  -- A bar is knowable at its close.
  abbrev pub bar_row : String → String → Bar F → BarRow F
  bar_row cadence source bar = record {
    cadence = cadence;
    bar = bar;
    source = source;
    as_of = bar.ts;
  }

  unfoldable pub upsert_bars :
      List (Bar F) → String → String → Tables F → Tables F × Result StoreError ℕ
  upsert_bars bars cadence source db =
      let rows = map (bar_row cadence source) bars in
      let (table, done) = in_chunks same_bar 2_000 (length rows) rows db.bars in
      (record db { bars = table }, done)

  unfoldable pub insert_features : List (FeatureWrite F) → Tables F → Tables F × Result StoreError ℕ
  insert_features feats db =
      let (table, done) = in_chunks same_feature 2_000 (length feats) feats db.features in
      (record db { features = table }, done)

  unfoldable pub upsert_macro : List (MacroWrite F) → Tables F → Tables F × Result StoreError ℕ
  upsert_macro points db =
      let (table, done) = in_chunks same_macro 5_000 (length points) points db.macros in
      (record db { macros = table }, done)

  unfoldable pub insert_regime : RegimeRow F → Tables F → Tables F
  insert_regime row db = record db { regimes = upsert same_regime row db.regimes }

  unfoldable pub delete_macro_by_source : String → Tables F → Tables F × ℕ
  delete_macro_by_source source db = (
    record db { macros = keep_if (λ p. not (str_eq p.source source)) db.macros },
    length (keep_if (λ p. str_eq p.source source) db.macros),
  )

  unfoldable pub delete_features_by_source : String → Tables F → Tables F × ℕ
  delete_features_by_source source db = (
    record db { features = keep_if (λ p. not (str_eq p.source source)) db.features },
    length (keep_if (λ p. str_eq p.source source) db.features),
  )

  abbrev pub from_feature : String → ℕ → Feature F → FeatureWrite F
  from_feature ticker decision_ts f = record {
    ticker = ticker;
    feature_key = f.key;
    layer = f.layer;
    decision_ts = decision_ts;
    as_of = f.as_of;
    value = f.value;
    lead_time = f.lead_time;
    source = f.source;
  }

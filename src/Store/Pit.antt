-- ===== src/Store/Pit.antt =====
-- The reads of a point in time, of crates/se-store/src/pit.rs. `ORDER BY` is an insertion sort.
use swing_x.Prelude.{
  ℕ, Bool, true, ◌&&◌, ◌||◌, not, Option, none, some, List, [], ◌∷◌, String, str_eq, ◌==◌, leb, ltb,
  if◌then◌else◌, take, keep_if, length, map,
}
use mathlib.Core.List.{reverse}
use mathlib.Core.Option
use swing_x.Core.Layer.{Layer, same_layer}
use swing_x.Core.Market.{Bar}
use swing_x.Store.{Feature, BarRow, FeatureWrite, MacroWrite, Tables}

-- What the modules read: everything that a context answers at its decision bar.
pub record Pit (F : Type 0) : Type 0 where
  pub ticker : String
  pub decision_ts : ℕ
  pub features : Option Layer → List (Feature F)
  pub feature : String → Option (Feature F)
  pub bars_for : String → String → ℕ → List (Bar F)
  pub macro_value_as_of : String → Option F
  pub macro_history : String → ℕ → List (ℕ × F)

abbrev pub in_layer : Option Layer → Layer → Bool
in_layer none l = true
in_layer (some layer) l = same_layer l layer

module _ {R : Type 0} (above : R → R → Bool) where
  unfoldable pub insert_sorted : R → List R → List R
  insert_sorted r [] = r ∷ []
  insert_sorted r (q ∷ qs) =
      let rest = insert_sorted r qs in if above q r then q ∷ rest else r ∷ q ∷ qs

  -- The row that stands above comes first.
  unfoldable pub order_by : List R → List R
  unfolding insert_sorted
  order_by [] = []
  order_by (r ∷ rs) = insert_sorted r (order_by rs)

-- The first row of each key, of rows in order.
unfoldable pub distinct_on : {R : Type 0} → (R → R → Bool) → List R → List R
distinct_on same [] = []
distinct_on same (r ∷ rs) = r ∷ keep_if (λ q. not (same r q)) (distinct_on same rs)

abbrev pub head? : {R : Type 0} → List R → Option R
head? [] = none
head? (r ∷ rs) = some r

abbrev pub last? : {R : Type 0} → List R → Option R
last? [] = none
last? (r ∷ []) = some r
last? (r ∷ q ∷ rs) = last? (q ∷ rs)

module _ {F : Type 0} where
  -- The predicate of every read: the event and the knowledge of it are not after the cutoff.
  abbrev pub bar_known : ℕ → BarRow F → Bool
  bar_known cutoff r = leb r.bar.ts cutoff && leb r.as_of cutoff

  abbrev pub feature_known : ℕ → FeatureWrite F → Bool
  feature_known cutoff r = leb r.decision_ts cutoff && leb r.as_of cutoff

  abbrev pub macro_known : ℕ → MacroWrite F → Bool
  macro_known cutoff r = leb r.ts cutoff && leb r.as_of cutoff

  abbrev pub later_bar : BarRow F → BarRow F → Bool
  later_bar a b = ltb b.bar.ts a.bar.ts

  abbrev pub later_feature : FeatureWrite F → FeatureWrite F → Bool
  later_feature a b =
      ltb b.decision_ts a.decision_ts || (a.decision_ts == b.decision_ts && ltb b.as_of a.as_of)

  abbrev pub later_macro : MacroWrite F → MacroWrite F → Bool
  later_macro a b = ltb b.ts a.ts || (a.ts == b.ts && ltb b.as_of a.as_of)

  -- The tag of a stored row is read back as it was.
  abbrev pub to_feature : FeatureWrite F → Feature F
  to_feature r = record {
    key = r.feature_key;
    value = r.value;
    layer = r.layer;
    as_of = r.as_of;
    lead_time = r.lead_time;
    source = r.source;
  }

  -- The latest version of each key; the order of the keys is that of the collation, and no caller reads it.
  unfoldable pub features : Tables F → String → ℕ → Option Layer → List (Feature F)
  features db ticker cutoff layer = map to_feature (
      distinct_on (λ a b. str_eq a.feature_key b.feature_key)
        (order_by later_feature (
          keep_if
            (λ r. str_eq r.ticker ticker && (feature_known cutoff r && in_layer layer r.layer))
            db.features)))

  unfoldable pub feature : Tables F → String → ℕ → String → Option (Feature F)
  feature db ticker cutoff key = Option.map to_feature (
      head? (
        order_by later_feature (
          keep_if
            (λ r. str_eq r.ticker ticker && (str_eq r.feature_key key && feature_known cutoff r))
            db.features)))

  abbrev pub feature_value : Pit F → String → Option F
  feature_value pit key = Option.map (λ (f : Feature F). f.value) (pit.feature key)

  unfoldable pub bars_for : Tables F → ℕ → String → String → ℕ → List (Bar F)
  bars_for db cutoff ticker cadence lookback =
      map (λ (r : BarRow F). r.bar)
        (reverse (
          take lookback (
            order_by later_bar (
              keep_if
                (λ r.
                  str_eq r.bar.ticker ticker && (str_eq r.cadence cadence && bar_known cutoff r))
                db.bars))))

  unfoldable pub macro_value_as_of : Tables F → ℕ → String → Option F
  macro_value_as_of db cutoff series =
      Option.map (λ (r : MacroWrite F). r.value)
        (head? (
          order_by later_macro
            (keep_if (λ r. str_eq r.series series && macro_known cutoff r) db.macros)))

  unfoldable pub macro_history : Tables F → ℕ → String → ℕ → List (ℕ × F)
  macro_history db cutoff series lookback =
      map (λ (r : MacroWrite F). (r.ts, r.value))
        (reverse (
          take lookback (
            distinct_on (λ a b. a.ts == b.ts)
              (order_by later_macro
                (keep_if (λ r. str_eq r.series series && macro_known cutoff r) db.macros)))))

  -- The handle of a ticker at a decision bar.
  unfoldable pub pit : Tables F → String → ℕ → Pit F
  pit db ticker decision_ts = record {
    ticker = ticker;
    decision_ts = decision_ts;
    features = features db ticker decision_ts;
    feature = feature db ticker decision_ts;
    bars_for = bars_for db decision_ts;
    macro_value_as_of = macro_value_as_of db decision_ts;
    macro_history = macro_history db decision_ts;
  }

  abbrev pub bars : Pit F → String → ℕ → List (Bar F)
  bars pit cadence lookback = pit.bars_for pit.ticker cadence lookback

  abbrev pub latest_bar : Pit F → String → Option (Bar F)
  latest_bar pit cadence = last? (bars pit cadence 1)

  unfoldable pub feature_key_count : Tables F → String → ℕ
  feature_key_count db ticker = length (
      distinct_on (λ a b. str_eq a.feature_key b.feature_key)
        (keep_if (λ r. str_eq r.ticker ticker) db.features))

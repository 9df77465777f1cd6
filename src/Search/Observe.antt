-- ===== src/Search/Observe.antt =====
-- The catalog of what was observed, `FeatureCatalog::from_windows` of crates/se-search/src/seed.rs. The values of a
-- feature are sorted by `<`: they are finite, so that any two compare.
pub mod Observed
pub mod Tests
use Prim.Native.Nat.{Ordering}
use Prim.Native.String.{compare as compare_texts}
use swing_x.Prelude.{ℕ, Bool, true, false, List, [], ◌∷◌, ◌++◌, String, ltb, if◌then◌else◌, length}
use swing_x.Float.{Float}
use swing_x.Core.Layer.{Layer}
use swing_x.Core.Genome.{Features}
use swing_x.Store.Pit.{order_by}
use swing_x.Search.Catalog.{FeatureStat, FeatureCatalog, layer_of_key, is_informative}
use swing_x.Search.Backtest.{BarPoint, FeatureWindow}

-- `BTreeMap<String, (Layer, Vec<f64>)>`, in the order of its keys.
abbrev pub Buckets : Type 0 → Type 0
Buckets F = List (String × (Layer × List F))

module _ {F : Type 0} where
  abbrev pub place :
      Ordering → String → F → String × (Layer × List F) → Buckets F → Buckets F → Buckets F
  place Ordering.lt k v b m rest = (k, (layer_of_key k, v ∷ [])) ∷ b ∷ m
  place Ordering.eq k v (j, (layer, vs)) m rest = (j, (layer, vs ++ v ∷ [])) ∷ m
  place Ordering.gt k v b m rest = b ∷ rest

  -- `buckets.entry(k).or_insert_with(..).1.push(v)`
  unfoldable pub push_value : String → F → Buckets F → Buckets F
  push_value k v [] = (k, (layer_of_key k, v ∷ [])) ∷ []
  push_value k v (b ∷ m) = let rest = push_value k v m in place (compare_texts k b.0) k v b m rest

module _ {F : Type 0} ⦃f : Float F⦄ where
  open f use {is_finite, lt}

  unfoldable pub push_features : Features F → Buckets F → Buckets F
  push_features [] m = m
  push_features ((k, v) ∷ features) m =
      push_features features (if is_finite v then push_value k v m else m)

  unfoldable pub push_points : List (BarPoint F) → Buckets F → Buckets F
  push_points [] m = m
  push_points (p ∷ ps) m = push_points ps (push_features p.features m)

  unfoldable pub push_windows : List (FeatureWindow F) → Buckets F → Buckets F
  push_windows [] m = m
  push_windows (w ∷ ws) m = push_windows ws (push_points w.points m)

  -- The statistic of a feature that was observed often enough and varies.
  unfoldable pub stats_of : ℕ → Buckets F → List (FeatureStat F)
  stats_of min_observations [] = []
  stats_of min_observations ((key, (layer, vs)) ∷ m) =
      let rest = stats_of min_observations m in
      let stat : FeatureStat F = record {
        key = key;
        layer = layer;
        sorted_values = order_by lt vs;
      } in
      if ltb (length vs) min_observations
      then rest
      else if is_informative stat
      then stat ∷ rest
      else rest

  unfoldable pub from_windows : List (FeatureWindow F) → ℕ → FeatureCatalog F
  from_windows windows min_observations = record {
    stats = stats_of min_observations (push_windows windows []);
  }

-- ===== src/Regime/Engine.antt =====
-- The regime engine, crates/se-regime/src/engine.rs: the labels of the stored bars of a ticker, on the tables of the
-- store passed along. A stored label is read back as it was written.
pub mod Keys
pub mod Keyed
pub mod Labels
pub mod Tests
use swing_x.Prelude.{
  ℕ, Bool, true, false, ◌&&◌, Option, none, some, List, [], ◌∷◌, map, String, str_eq, ◌==◌, ltb,
  if◌then◌else◌, keep_if, is_empty, map_insert,
}
use swing_x.Prelude.Results.{Result, ok, err}
use mathlib.Core.Option
use swing_x.Float.{Float}
use swing_x.Core.Genome.{Features}
use swing_x.Regime.{RegimeLabel, RegimeAssessment, ClassifierConfig, classify}
use swing_x.Store.{
  Feature, RegimeRow, StoreError, Tables, from_feature, insert_features, insert_regime,
}
use swing_x.Store.Pit.{pit, head?, order_by}
use swing_x.Features.{null_proprietary}
use swing_x.Features.RegimeLayer.{compute_regime}
use swing_x.Search.Window.{stored_bar_ts}

pub record StoredRegime (F : Type 0) : Type 0 where
  pub label : RegimeLabel
  pub prob_map : List (RegimeLabel × F)

module _ {F : Type 0} where
  unfoldable pub collect : Features F → List (Feature F) → Features F
  collect m [] = m
  collect m (x ∷ xs) = collect (map_insert x.key x.value m) xs

  abbrev pub later_regime : RegimeRow F → RegimeRow F → Bool
  later_regime a b = ltb b.as_of a.as_of

  unfoldable pub regime_at : Tables F → String → ℕ → Option (StoredRegime F)
  regime_at db ticker ts =
      Option.map (λ (r : RegimeRow F). record { label = r.label; prob_map = r.prob_map })
        (head? (
          order_by later_regime
            (keep_if (λ r. str_eq r.ticker ticker && r.decision_ts == ts) db.regimes)))

  abbrev pub regime_row : String → ℕ → RegimeAssessment F → RegimeRow F
  regime_row ticker ts a = record {
    ticker = ticker;
    decision_ts = ts;
    as_of = ts;
    label = a.label;
    prob_map = a.prob_map;
    model_id = none;
  }

  abbrev pub add_label :
      ℕ
      → RegimeAssessment F
      → Result StoreError (List (ℕ × RegimeAssessment F)) × Tables F
      → Result StoreError (List (ℕ × RegimeAssessment F)) × Tables F
  add_label ts a (err e, db) = (err e, db)
  add_label ts a (ok out, db) = (ok ((ts, a) ∷ out), db)

  -- The label of a bar and those after it, up to the first failure.
  abbrev pub then_rest :
      ℕ
      → Result StoreError (Option (RegimeAssessment F)) × Tables F
      → (Tables F → Result StoreError (List (ℕ × RegimeAssessment F)) × Tables F)
      → Result StoreError (List (ℕ × RegimeAssessment F)) × Tables F
  then_rest ts (err e, db) rest = (err e, db)
  then_rest ts (ok none, db) rest = rest db
  then_rest ts (ok (some a), db) rest = add_label ts a (rest db)

module _ {F : Type 0} ⦃f : Float F⦄ (ln exp : F → F) (cfg : ClassifierConfig F) where
  abbrev pub regime_features : Tables F → String → ℕ → List (Feature F)
  regime_features db ticker ts = compute_regime ln null_proprietary (pit db ticker ts)

  abbrev pub assess : List (Feature F) → RegimeAssessment F
  assess feats = classify exp cfg (collect [] feats)

  abbrev pub store_label :
      String
      → ℕ
      → RegimeAssessment F
      → Tables F × Result StoreError ℕ
      → Result StoreError (Option (RegimeAssessment F)) × Tables F
  store_label ticker ts a (db, err e) = (err e, db)
  store_label ticker ts a (db, ok n) = (ok (some a), insert_regime (regime_row ticker ts a) db)

  unfoldable pub assess_at :
      String → ℕ → Tables F → Result StoreError (Option (RegimeAssessment F)) × Tables F
  assess_at ticker ts db =
      let feats = regime_features db ticker ts in
      if is_empty feats
      then (ok none, db)
      else store_label ticker ts (assess feats)
          (insert_features (map (from_feature ticker ts) feats) db)

  unfoldable pub label_all :
      String → List ℕ → Tables F → Result StoreError (List (ℕ × RegimeAssessment F)) × Tables F
  label_all ticker [] db = (ok [], db)
  label_all ticker (ts ∷ more) db = then_rest ts (assess_at ticker ts db) (label_all ticker more)

  unfoldable pub label_window :
      String → ℕ → ℕ → Tables F → Result StoreError (List (ℕ × RegimeAssessment F)) × Tables F
  label_window ticker from to db = label_all ticker (stored_bar_ts db ticker from to "daily") db

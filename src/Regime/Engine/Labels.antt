-- ===== src/Regime/Engine/Labels.antt =====
-- The labels of a window are those of the store as it was before the window was labelled.
use swing_x.Prelude.{
  ℕ, ◌≡◌, refl, ap, ◌∙◌, inl, inr, true, false, none, some, List, [], ◌∷◌, map, String, length,
  is_empty, if◌then◌else◌, Bool-cases, arith,
}
use swing_x.Prelude.Results.{Result, ok, err, ok-injective}
use swing_x.Float.{Float}
use swing_x.Regime.{RegimeAssessment, ClassifierConfig}
use swing_x.Store.{
  FeatureWrite, RegimeRow, StoreError, Tables, from_feature, same_feature, upsert, upsert_all,
  same_regime, insert_features, insert_regime,
}
use swing_x.Store.Pit.{pit, bars_for, macro_value_as_of, macro_history}
use swing_x.Store.Upsert.{in_chunks-ok}
use swing_x.Features.{null_proprietary}
use swing_x.Features.RegimeLayer.{compute_regime}
use swing_x.Search.Window.{stored_bar_ts}
use swing_x.Regime.Engine.{
  regime_features, assess, add_label, then_rest, regime_row, assess_at, label_all, label_window,
}
use swing_x.Regime.Engine.Keyed.{repeats-compute_regime}

add_label-ok :
    {F : Type 0} (ts : ℕ) (a : RegimeAssessment F)
    (done : Result StoreError (List (ℕ × RegimeAssessment F)) × Tables F)
    (out : List (ℕ × RegimeAssessment F))
    → done.0 ≡ ok out
    → (add_label ts a done).0 ≡ ok ((ts, a) ∷ out)
add_label-ok ts a (ok more, db) out h = ap (λ (l : List _). ok ((ts, a) ∷ l)) (ok-injective h)
add_label-ok ts a (err e, db) out h = absurd (cc h)

module _ {F : Type 0} ⦃f : Float F⦄ (ln exp : F → F) (cfg : ClassifierConfig F) where
  -- The labels of the bars that have regime features, all read in the same tables.
  unfoldable pub labels_at : Tables F → String → List ℕ → List (ℕ × RegimeAssessment F)
  labels_at db ticker [] = []
  labels_at db ticker (ts ∷ more) =
      let feats = regime_features ln exp cfg db ticker ts in
      let rest = labels_at db ticker more in
      if is_empty feats then rest else (ts, assess ln exp cfg feats) ∷ rest

  -- The regime features read bars and macro series alone, and not what the engine writes.
  regime_features-written :
      (db : Tables F) (features : List (FeatureWrite F)) (regimes : List (RegimeRow F))
      (ticker : String) (ts : ℕ)
      → regime_features ln exp cfg (record db { features = features; regimes = regimes }) ticker ts
        ≡ regime_features ln exp cfg db ticker ts
  unfolding compute_regime pit bars_for macro_value_as_of macro_history
  regime_features-written db features regimes ticker ts = refl

  -- The features of a bar are stored whole, and its label is that of its features.
  assess_at-label :
      (db : Tables F) (ticker : String) (ts : ℕ)
      → let feats = regime_features ln exp cfg db ticker ts in
        is_empty feats ≡ false
        → assess_at ln exp cfg ticker ts db ≡ (
          ok (some (assess ln exp cfg feats)),
          record db {
            features = upsert_all same_feature (map (from_feature ticker ts) feats) db.features;
            regimes =
                upsert same_regime (regime_row ticker ts (assess ln exp cfg feats)) db.regimes;
          },
        )
  unfolding assess_at insert_features insert_regime
  assess_at-label db ticker ts e =
      let rows = map (from_feature ticker ts) (regime_features ln exp cfg db ticker ts) in
      rw e (
        rw
          (in_chunks-ok same_feature 2_000 (length rows) rows db.features (omega arith)
            (omega arith) (repeats-compute_regime ln null_proprietary (pit db ticker ts) ticker ts))
          refl)

  assess_at-none :
      (db : Tables F) (ticker : String) (ts : ℕ)
      → is_empty (regime_features ln exp cfg db ticker ts) ≡ true
      → assess_at ln exp cfg ticker ts db ≡ (ok none, db)
  unfolding assess_at
  assess_at-none db ticker ts e = rw e refl

  label_all-labels_at :
      (db : Tables F) (ticker : String) (times : List ℕ) (features : List (FeatureWrite F))
      (regimes : List (RegimeRow F))
      → (label_all ln exp cfg ticker times (record db { features = features; regimes = regimes })).0
        ≡ ok (labels_at db ticker times)
  unfolding label_all labels_at
  label_all-labels_at db ticker [] features regimes = refl
  label_all-labels_at db ticker (ts ∷ more) features regimes =
      let db1 = record db { features = features; regimes = regimes } in
      let same = regime_features-written db features regimes ticker ts in
      elim (Bool-cases (is_empty (regime_features ln exp cfg db ticker ts))) [
        | inl e ↦
            rw (assess_at-none db1 ticker ts (ap is_empty same ∙ e))
              (rw e (label_all-labels_at db ticker more features regimes))
        | inr e ↦
            let feats1 = regime_features ln exp cfg db1 ticker ts in
            let a1 = assess ln exp cfg feats1 in
            let table = upsert_all same_feature (map (from_feature ticker ts) feats1) features in
            let rows = upsert same_regime (regime_row ticker ts a1) regimes in
            ap (λ r. (then_rest ts r (label_all ln exp cfg ticker more)).0)
              (assess_at-label db1 ticker ts (ap is_empty same ∙ e))
            ∙ (add_label-ok ts a1
                  (label_all ln exp cfg ticker more
                    (record db { features = table; regimes = rows }))
                  (labels_at db ticker more) (label_all-labels_at db ticker more table rows)
                ∙ rw e (λ i. ok ((ts, assess ln exp cfg (same i)) ∷ labels_at db ticker more)))
      ]

  -- The labelling of a window never fails, and it gives the bars of the window that have regime features, in
  -- their order, each with the label of its features in the store as it was before: what it writes for one bar
  -- does not change the label of another.
  pub label_window-labels_at :
      (db : Tables F) (ticker : String) (from to : ℕ)
      → (label_window ln exp cfg ticker from to db).0
        ≡ ok (labels_at db ticker (stored_bar_ts db ticker from to "daily"))
  unfolding label_window
  label_window-labels_at db ticker from to =
      label_all-labels_at db ticker (stored_bar_ts db ticker from to "daily") db.features db.regimes

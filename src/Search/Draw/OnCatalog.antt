-- ===== src/Search/Draw/OnCatalog.antt =====
-- A drawn predicate stays on the catalog: an observed feature at an observed value.
use swing_x.Prelude.{
  ◌≡◌, refl, ap, true, Option, none, some, some-injective, List, arith, keep_if, OneOf,
  OneOf-keep_if,
}
use swing_x.Float.{Float}
use swing_x.Core.Layer.{Layer}
use swing_x.Core.Genome.{Predicate}
use swing_x.Search.Rng.{Rng, choice}
use swing_x.Search.Rng.Bounds.{choice-OneOf}
use swing_x.Search.Catalog.{FeatureStat, FeatureCatalog, quantile-OneOf}
use swing_x.Search.Draw.{
  has_layer, predicate_at, predicate_on, draw_predicate, draw_predicate_in_layers,
}

-- The predicate reads a feature of the catalog, at one of the values observed for it.
pub record OnCatalog {F : Type 0} (c : FeatureCatalog F) (p : Predicate F) : Type 0 where
  pub stat : FeatureStat F
  pub listed : OneOf stat c.stats
  pub same_key : stat.key ≡ p.feature_key
  pub observed : OneOf p.threshold stat.sorted_values

module _ {F : Type 0} ⦃f : Float F⦄ (c : FeatureCatalog F) where
  -- A predicate on that feature, with its layer, at one of its observed values.
  pub record IsOn (s : FeatureStat F) (p : Predicate F) : Type 0 where
    pub same_key : s.key ≡ p.feature_key
    pub same_layer : s.layer ≡ p.layer
    pub observed : OneOf p.threshold s.sorted_values

  predicate_at-IsOn :
      (s : FeatureStat F) (o : Option F) (rng : Rng) {p : Predicate F}
      → ((t : F) → o ≡ some t → OneOf t s.sorted_values)
      → (predicate_at s o rng).0 ≡ some p
      → IsOn s p
  unfolding predicate_at
  predicate_at-IsOn s none rng h e = cc
  predicate_at-IsOn s (some t) rng h e =
      let at : t ≡ _ = ap (λ q. q.threshold) (some-injective _ _ e) in
      record { same_key = ground arith; same_layer = ground arith; observed = rw (← at) (h t refl) }

  predicate_on-IsOn :
      (o : Option (FeatureStat F)) (rng : Rng) {p : Predicate F}
      → (predicate_on o rng).0 ≡ some p
      → (s : FeatureStat F) × (o ≡ some s) × IsOn s p
  unfolding predicate_on
  predicate_on-IsOn none rng e = cc
  predicate_on-IsOn (some s) rng e = (s, refl, predicate_at-IsOn s _ _ (λ t. quantile-OneOf s _) e)

  pub draw_predicate-OnCatalog :
      (rng : Rng) {p : Predicate F} → (draw_predicate c rng).0 ≡ some p → OnCatalog c p
  unfolding draw_predicate
  draw_predicate-OnCatalog rng e =
      let (s, drawn, on) = predicate_on-IsOn (choice c.stats rng).0 (choice c.stats rng).1 e in
      record {
        stat = s;
        listed = choice-OneOf c.stats rng drawn;
        same_key = on.same_key;
        observed = on.observed;
      }

  -- A draw from some layers is on the catalog, and in one of those layers.
  pub draw_predicate_in_layers-OnCatalog :
      (layers : List Layer) (rng : Rng) {p : Predicate F}
      → (draw_predicate_in_layers c layers rng).0 ≡ some p
      → OnCatalog c p × (has_layer layers p.layer ≡ true)
  unfolding draw_predicate_in_layers
  draw_predicate_in_layers-OnCatalog layers rng e =
      let pool = keep_if (λ s. has_layer layers s.layer) c.stats in
      let (s, drawn, on) = predicate_on-IsOn (choice pool rng).0 (choice pool rng).1 e in
      let (listed, within) = OneOf-keep_if _ c.stats s (choice-OneOf pool rng drawn) in
      (
        record { stat = s; listed = listed; same_key = on.same_key; observed = on.observed },
        rw on.same_layer at within,
      )

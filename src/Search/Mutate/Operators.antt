-- ===== src/Search/Mutate/Operators.antt =====
-- Each operator of `mutate` keeps the predicates valid.
use swing_x.Prelude.{
  ℕ, ◌≤◌, ◌<◌, ◌≡◌, refl, inl, inr, not, ◌&&◌, Option, none, some, List, [], ◌∷◌, arith, ltb,
  length, length-append, length-set, length-erase_idx, get_elem?, set, erase_idx, is_empty, keep_if,
  contains, Distinct, Distinct-snoc, Distinct-set, Distinct-erase_idx, All, All-append, All-set,
  All-erase_idx, All-get_elem?, Bool-cases, ltb→lt,
}
use swing_x.Float.{Float}
use swing_x.Core.Layer.{Layer, all_layers, same_layer}
use swing_x.Core.Genome.{Predicate, feature_keys}
use swing_x.Search.Rng.{Rng, below}
use swing_x.Search.Rng.Bounds.{below-lt}
use swing_x.Search.Catalog.{
  FeatureStat, FeatureCatalog, stat_for_key, stat_for_key-OneOf, quantile, quantile-OneOf,
}
use swing_x.Search.Draw.OnCatalog.{
  OnCatalog, draw_predicate-OnCatalog, draw_predicate_in_layers-OnCatalog,
}
use swing_x.Search.Mutate.{
  max_predicates, push_new, swap_new, flip_found, flip_op, has_stats, remove_one, move_threshold,
  perturb_threshold_span, perturb_at, perturb, perturb_found, swap, add_one, add_in, add_missing,
  jump_in, jump_at, jump,
}
use swing_x.Search.Mutate.Lists.{
  feature_keys-set, feature_keys-erase_idx, feature_keys-append, feature_keys-set_same,
}

-- The predicates of a genome that the search may evaluate.
pub record IsValid {F : Type 0} (c : FeatureCatalog F) (ps : List (Predicate F)) : Type 0 where
  pub nonempty : 0 < length ps
  pub bounded : length ps ≤ max_predicates
  pub distinct : Distinct (feature_keys ps)
  pub on_catalog : All (OnCatalog c) ps

module _ {F : Type 0} (c : FeatureCatalog F) where
  abbrev pub IsDrawn : Option (Predicate F) → Type 0
  IsDrawn o = (p : Predicate F) → o ≡ some p → OnCatalog c p

  set_same-IsValid :
      (ps : List (Predicate F)) (i : ℕ) (p q : Predicate F)
      → IsValid c ps
      → get_elem? ps i ≡ some p
      → q.feature_key ≡ p.feature_key
      → OnCatalog c q
      → IsValid c (set ps i q)
  set_same-IsValid ps i p q v at same on = record {
    nonempty = omega (arith, length-set ps i q, v.nonempty);
    bounded = omega (arith, length-set ps i q, v.bounded);
    distinct = rw (feature_keys-set_same ps i p q at same) v.distinct;
    on_catalog = All-set (OnCatalog c) ps i q v.on_catalog on;
  }

  push_new-IsValid :
      (ps : List (Predicate F)) (o : Option (Predicate F))
      → IsValid c ps
      → length ps < max_predicates
      → IsDrawn o
      → IsValid c (push_new ps o)
  push_new-IsValid ps none v room d = v
  push_new-IsValid ps (some p) v room d =
      elim (Bool-cases (contains (feature_keys ps) p.feature_key)) [
        | inl e ↦ rw e v
        | inr e ↦ rw e (record {
          nonempty = omega (arith, length-append ps (p ∷ []));
          bounded = omega (arith, length-append ps (p ∷ []));
          distinct =
              rw (feature_keys-append ps (p ∷ []))
                (Distinct-snoc (feature_keys ps) p.feature_key v.distinct e);
          on_catalog = All-append (OnCatalog c) ps (p ∷ []) v.on_catalog (d p refl, tt);
        })
      ]

  swap_new-IsValid :
      (ps : List (Predicate F)) (i : ℕ) (o : Option (Predicate F))
      → IsValid c ps
      → IsDrawn o
      → IsValid c (swap_new ps i o)
  swap_new-IsValid ps i none v d = v
  swap_new-IsValid ps i (some p) v d =
      elim (Bool-cases (contains (erase_idx (feature_keys ps) i) p.feature_key)) [
        | inl e ↦ rw e v
        | inr e ↦ rw e (record {
          nonempty = omega (arith, length-set ps i p, v.nonempty);
          bounded = omega (arith, length-set ps i p, v.bounded);
          distinct =
              rw (feature_keys-set ps i p)
                (Distinct-set (feature_keys ps) i p.feature_key v.distinct e);
          on_catalog = All-set (OnCatalog c) ps i p v.on_catalog (d p refl);
        })
      ]

  flip_at-IsValid :
      (ps : List (Predicate F)) (i : ℕ) (o : Option (Predicate F))
      → IsValid c ps
      → get_elem? ps i ≡ o
      → IsValid c (flip_found ps i o)
  flip_at-IsValid ps i none v at = v
  flip_at-IsValid ps i (some p) v at =
      let on = All-get_elem? (OnCatalog c) ps i v.on_catalog at in
      set_same-IsValid ps i p _ v at refl (record {
        stat = on.stat;
        listed = on.listed;
        same_key = on.same_key;
        observed = on.observed;
      })

  pub flip_op-IsValid :
      (ps : List (Predicate F)) (rng : Rng) → IsValid c ps → IsValid c (flip_op ps rng).0
  unfolding flip_op
  flip_op-IsValid [] rng v = v
  flip_op-IsValid (p ∷ ps) rng v = flip_at-IsValid (p ∷ ps) _ _ v refl

  pub remove_one-IsValid :
      (ps : List (Predicate F)) (rng : Rng) → IsValid c ps → IsValid c (remove_one ps rng).0
  unfolding remove_one
  remove_one-IsValid ps rng v = elim (Bool-cases (ltb 1 (length ps))) [
    | inr e ↦ rw e v
    | inl e ↦
        let i = (below (length ps) rng).0 in
        let shorter = length-erase_idx ps i (below-lt (length ps) rng v.nonempty) in
        rw e (record {
          nonempty = ground (arith, shorter);
          bounded = omega (arith, shorter, v.bounded);
          distinct =
              rw (feature_keys-erase_idx ps i) (Distinct-erase_idx (feature_keys ps) i v.distinct);
          on_catalog = All-erase_idx (OnCatalog c) ps i v.on_catalog;
        })
  ]

-- The operators that draw.
module _ {F : Type 0} ⦃f : Float F⦄ (c : FeatureCatalog F) where
  move_threshold-IsValid :
      (ps : List (Predicate F)) (i : ℕ) (p : Predicate F) (s : FeatureStat F) (q : F)
      → IsValid c ps
      → get_elem? ps i ≡ some p
      → stat_for_key c p.feature_key ≡ some s
      → (o : Option F) → quantile s q ≡ o
      → IsValid c (set ps i (move_threshold p o))
  unfolding move_threshold
  move_threshold-IsValid ps i p s q v at found none e =
      set_same-IsValid c ps i p p v at refl (All-get_elem? (OnCatalog c) ps i v.on_catalog at)
  move_threshold-IsValid ps i p s q v at found (some t) e =
      let (listed, key) = stat_for_key-OneOf c p.feature_key found in
      set_same-IsValid c ps i p _ v at refl
        (record { stat = s; listed = listed; same_key = key; observed = quantile-OneOf s q e })

  perturb_found-IsValid :
      (ps : List (Predicate F)) (i : ℕ) (p : Predicate F) (span : F) (rng : Rng)
      → IsValid c ps
      → get_elem? ps i ≡ some p
      → (o : Option (FeatureStat F)) → stat_for_key c p.feature_key ≡ o
      → IsValid c (perturb_found span ps i p o rng).0
  unfolding perturb_found perturb_threshold_span
  perturb_found-IsValid ps i p span rng v at none found = v
  perturb_found-IsValid ps i p span rng v at (some s) found =
      elim (Bool-cases (ltb (length s.sorted_values) 2)) [
        | inl e ↦ rw e (
            set_same-IsValid c ps i p p v at refl
              (All-get_elem? (OnCatalog c) ps i v.on_catalog at))
        | inr e ↦ rw e (move_threshold-IsValid ps i p s _ v at found _ refl)
      ]

  perturb_at-IsValid :
      (span : F) (ps : List (Predicate F)) (i : ℕ) (o : Option (Predicate F)) (rng : Rng)
      → IsValid c ps
      → get_elem? ps i ≡ o
      → IsValid c (perturb_at c span ps i o rng).0
  unfolding perturb_at
  perturb_at-IsValid span ps i none rng v at = v
  perturb_at-IsValid span ps i (some p) rng v at = perturb_found-IsValid ps i p span rng v at _ refl

  pub perturb-IsValid :
      (span : F) (ps : List (Predicate F)) (rng : Rng)
      → IsValid c ps
      → IsValid c (perturb c span ps rng).0
  unfolding perturb
  perturb-IsValid span [] rng v = v
  perturb-IsValid span (p ∷ ps) rng v = perturb_at-IsValid span (p ∷ ps) _ _ _ v refl

  pub swap-IsValid :
      (ps : List (Predicate F)) (rng : Rng) → IsValid c ps → IsValid c (swap c ps rng).0
  unfolding swap
  swap-IsValid [] rng v = v
  swap-IsValid (p ∷ ps) rng v =
      swap_new-IsValid c (p ∷ ps) _ _ v (λ q. draw_predicate-OnCatalog c _)

  pub add_one-IsValid :
      (ps : List (Predicate F)) (rng : Rng) → IsValid c ps → IsValid c (add_one c ps rng).0
  unfolding add_one
  add_one-IsValid ps rng v = elim (Bool-cases (ltb (length ps) max_predicates)) [
    | inr e ↦ rw e v
    | inl e ↦ rw e (push_new-IsValid c ps _ v (ltb→lt _ _ e) (λ q. draw_predicate-OnCatalog c _))
  ]

  add_in-IsValid :
      (ps : List (Predicate F)) (o : Option Layer) (rng : Rng)
      → IsValid c ps
      → length ps < max_predicates
      → IsValid c (add_in c ps o rng).0
  unfolding add_in
  add_in-IsValid ps none rng v room = v
  add_in-IsValid ps (some l) rng v room =
      push_new-IsValid c ps _ v room (λ q e. (draw_predicate_in_layers-OnCatalog c _ _ e).0)

  pub add_missing-IsValid :
      (ps : List (Predicate F)) (rng : Rng) → IsValid c ps → IsValid c (add_missing c ps rng).0
  unfolding add_missing
  add_missing-IsValid ps rng v = elim (Bool-cases (ltb (length ps) max_predicates)) [
    | inr e ↦ rw e v
    | inl e ↦ rw e (add_in-IsValid ps _ _ v (ltb→lt _ _ e))
  ]

  jump_in-IsValid :
      (ps : List (Predicate F)) (i : ℕ) (o : Option Layer) (rng : Rng)
      → IsValid c ps
      → IsValid c (jump_in c ps i o rng).0
  unfolding jump_in
  jump_in-IsValid ps i none rng v = v
  jump_in-IsValid ps i (some l) rng v =
      swap_new-IsValid c ps i _ v (λ q e. (draw_predicate_in_layers-OnCatalog c _ _ e).0)

  jump_at-IsValid :
      (ps : List (Predicate F)) (i : ℕ) (o : Option (Predicate F)) (rng : Rng)
      → IsValid c ps
      → IsValid c (jump_at c ps i o rng).0
  unfolding jump_at
  jump_at-IsValid ps i none rng v = v
  jump_at-IsValid ps i (some p) rng v =
      elim (Bool-cases
        (is_empty (keep_if (λ l. not (same_layer l p.layer) && has_stats c l) all_layers))) [
          | inl e ↦ rw e v
          | inr e ↦ rw e (jump_in-IsValid ps i _ _ v)
        ]

  pub jump-IsValid :
      (ps : List (Predicate F)) (rng : Rng) → IsValid c ps → IsValid c (jump c ps rng).0
  unfolding jump
  jump-IsValid [] rng v = v
  jump-IsValid (p ∷ ps) rng v =
      let (i, rng') = below (length (p ∷ ps)) rng in
      jump_at-IsValid (p ∷ ps) i (get_elem? (p ∷ ps) i) rng' v

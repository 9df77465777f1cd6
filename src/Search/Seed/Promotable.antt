-- ===== src/Search/Seed/Promotable.antt =====
-- What a seed is: predicates over distinct features of the catalog, one of them actionable.
use swing_x.Prelude.{
  ℕ, zero, suc, ◌+◌, ◌*◌, min, max, ◌≤◌, ◌<◌, ◌≡◌, refl, sym, ap, inl, inr, Bool, true, Option,
  none, some, some-injective, List, [], ◌∷◌, ◌++◌, arith, leb, length, any, contains, Distinct, All,
  Bool-cases,
}
use swing_x.Float.{Float}
use swing_x.Core.Layer.{Layer}
use swing_x.Core.Horizon.{Horizon}
use swing_x.Core.Genome.{Predicate, Genome, feature_keys, new}
use swing_x.Search.Rng.{Rng, below}
use swing_x.Search.Catalog.{FeatureCatalog, is_actionable}
use swing_x.Search.Draw.{draw_predicate, draw_predicate_in_layers, has_layer}
use swing_x.Search.Draw.OnCatalog.{
  OnCatalog, draw_predicate-OnCatalog, draw_predicate_in_layers-OnCatalog,
}
use swing_x.Search.Crossover.{Picked, none_picked, pick}
use swing_x.Search.Crossover.Valid.{IsConsistent, pick-IsConsistent, length-pick}
use swing_x.Search.Seed.{
  actionable_layers, context_layers, pick_drawn, pad, with_side, has_context, add_context,
  promotable_from, random_genome_promotable,
}

module _ {F : Type 0} where
  abbrev pub has_actionable : List (Predicate F) → Bool
  has_actionable ps = any (λ p. is_actionable p.layer) ps

  has_actionable-append :
      (ps qs : List (Predicate F)) → has_actionable ps ≡ true → has_actionable (ps ++ qs) ≡ true
  has_actionable-append [] qs h = cc
  has_actionable-append (p ∷ ps) qs h = ground (arith, has_actionable-append ps qs)

  -- Distinct features of the catalog, at most `most` of them, one at least actionable.
  pub record IsSeed (c : FeatureCatalog F) (most : ℕ) (x : Picked F) : Type 0 where
    pub consistent : IsConsistent c x
    pub bounded : length x.predicates ≤ most
    pub actionable : has_actionable x.predicates ≡ true

  pick_drawn-IsSeed :
      (c : FeatureCatalog F) (most : ℕ) (x : Picked F) (o : Option (Predicate F))
      → IsSeed c most x
      → length x.predicates < most
      → ((p : Predicate F) → o ≡ some p → OnCatalog c p)
      → IsSeed c most (pick_drawn x o)
  pick_drawn-IsSeed c most x none s room on = s
  pick_drawn-IsSeed c most x (some p) s room on = record {
    consistent = pick-IsConsistent c x p s.consistent (on p refl);
    bounded = omega (arith, (length-pick x p).1);
    actionable = elim (Bool-cases (contains x.used p.feature_key)) [
      | inl e ↦ rw e s.actionable
      | inr e ↦ rw e (has_actionable-append x.predicates (p ∷ []) s.actionable)
    ];
  }

is_actionable-has_layer :
    (l : Layer) → has_layer actionable_layers l ≡ true → is_actionable l ≡ true
is_actionable-has_layer Layer.trigger h = refl
is_actionable-has_layer Layer.location h = refl
is_actionable-has_layer Layer.regime h = cc
is_actionable-has_layer Layer.tradeability h = cc
is_actionable-has_layer Layer.event h = cc

module _ {F : Type 0} ⦃f : Float F⦄ (c : FeatureCatalog F) where
  pad-IsSeed :
      (most target attempts : ℕ) (x : Picked F) (rng : Rng)
      → target ≤ most
      → IsSeed c most x
      → IsSeed c most (pad c target attempts x rng).0
  unfolding pad
  pad-IsSeed most target zero x rng h s = s
  pad-IsSeed most target (suc attempts) x rng h s =
      elim (Bool-cases (leb target (length x.predicates))) [
        | inl e ↦ rw e s
        | inr e ↦
            let (o, rng') = draw_predicate c rng in
            rw e (
              pad-IsSeed most target attempts (pick_drawn x o) rng' h (
                pick_drawn-IsSeed c most x o s (ground arith)
                  (λ p. draw_predicate-OnCatalog c rng)))
      ]

  add_context-IsSeed :
      (most : ℕ) (x : Picked F) (rng : Rng)
      → IsSeed c most x
      → length x.predicates < most
      → IsSeed c most (add_context c x rng).0
  unfolding add_context
  add_context-IsSeed most x rng s room = elim (Bool-cases (has_context c)) [
    | inr e ↦ rw e s
    | inl e ↦ rw e (
        pick_drawn-IsSeed c most x (draw_predicate_in_layers c context_layers rng).0 s room
          (λ p h. (draw_predicate_in_layers-OnCatalog c context_layers rng h).0))
  ]

  first-IsSeed :
      (most : ℕ) (p : Predicate F)
      → 0 < most
      → OnCatalog c p
      → is_actionable p.layer ≡ true
      → IsSeed c most (pick none_picked p)
  first-IsSeed most p h on act = record {
    consistent =
        pick-IsConsistent c none_picked p (record { same = refl; distinct = tt; on_catalog = tt })
          on;
    bounded = omega arith;
    actionable = ground arith;
  }

  -- The genome on a seed's predicates.
  pub record IsPromotableShape (most : ℕ) (g : Genome F) : Type 0 where
    pub bounded : length g.predicates ≤ most
    pub distinct : Distinct (feature_keys g.predicates)
    pub on_catalog : All (OnCatalog c) g.predicates
    pub actionable : has_actionable g.predicates ≡ true

  with_side-IsPromotableShape :
      (horizon : Horizon) (most : ℕ) (x : Picked F) (rng : Rng) {g : Genome F}
      → IsSeed c most x
      → (with_side horizon x.predicates rng).0 ≡ some g
      → IsPromotableShape most g
  unfolding with_side new
  with_side-IsPromotableShape horizon most x rng s h =
      rw (← ap (λ g. g.predicates) (some-injective _ _ h)) (record {
        bounded = s.bounded;
        distinct = rw (sym s.consistent.same) s.consistent.distinct;
        on_catalog = s.consistent.on_catalog;
        actionable = s.actionable;
      })

  promotable_from-IsPromotableShape :
      (horizon : Horizon) (most : ℕ) (o : Option (Predicate F)) (rng : Rng) {g : Genome F}
      → ((p : Predicate F) → o ≡ some p → OnCatalog c p × (is_actionable p.layer ≡ true))
      → (promotable_from c horizon most o rng).0 ≡ some g
      → IsPromotableShape (max most 2) g
  unfolding promotable_from
  promotable_from-IsPromotableShape horizon most none rng drawn h = cc
  promotable_from-IsPromotableShape horizon most (some p) rng drawn h =
      let (on, act) = drawn p refl in
      let first = first-IsSeed (max most 2) p (omega arith) on act in
      let (x, rng1) = add_context c (pick none_picked p) rng in
      let second = add_context-IsSeed (max most 2) (pick none_picked p) rng first (omega arith) in
      let (n, rng2) = below (max most 1) rng1 in
      let target = min (2 + n) (max most 2) in
      let padded = pad-IsSeed (max most 2) target (target * 4) x rng2 (omega arith) second in
      with_side-IsPromotableShape horizon (max most 2) _ _ padded h

  -- Whatever the generator draws, a seed built to be promotable has a predicate on an actionable layer,
  -- its predicates are over distinct features of the catalog at observed values, and there are at most
  -- as many as asked for, or two where fewer were.
  pub random_genome_promotable-IsPromotableShape :
      (horizon : Horizon) (most : ℕ) (rng : Rng) (g : Genome F)
      → (random_genome_promotable c horizon most rng).0 ≡ some g
      → IsPromotableShape (max most 2) g
  unfolding random_genome_promotable
  random_genome_promotable-IsPromotableShape horizon most rng g h =
      promotable_from-IsPromotableShape horizon most _ _
        (λ p e.
          let (on, layered) = draw_predicate_in_layers-OnCatalog c actionable_layers rng e in
          (on, is_actionable-has_layer p.layer layered))
        h

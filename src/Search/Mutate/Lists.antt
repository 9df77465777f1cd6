-- ===== src/Search/Mutate/Lists.antt =====
-- The feature keys of a list of predicates that an operator changes at one place.
use swing_x.Prelude.{
  ℕ, zero, suc, ◌≡◌, refl, sym, ap, ◌∙◌, some, some-injective, List, [], ◌∷◌, ◌++◌, get_elem?, set,
  erase_idx,
}
use swing_x.Core.Genome.{Predicate, feature_keys}

module _ {F : Type 0} where
  pub feature_keys-set :
      (ps : List (Predicate F)) (i : ℕ) (q : Predicate F)
      → feature_keys (set ps i q) ≡ set (feature_keys ps) i q.feature_key
  feature_keys-set [] i q = refl
  feature_keys-set (p ∷ ps) zero q = refl
  feature_keys-set (p ∷ ps) (suc i) q = ap (◌∷◌ p.feature_key) (feature_keys-set ps i q)

  pub feature_keys-erase_idx :
      (ps : List (Predicate F)) (i : ℕ)
      → feature_keys (erase_idx ps i) ≡ erase_idx (feature_keys ps) i
  feature_keys-erase_idx [] i = refl
  feature_keys-erase_idx (p ∷ ps) zero = refl
  feature_keys-erase_idx (p ∷ ps) (suc i) = ap (◌∷◌ p.feature_key) (feature_keys-erase_idx ps i)

  pub feature_keys-append :
      (ps qs : List (Predicate F)) → feature_keys (ps ++ qs) ≡ feature_keys ps ++ feature_keys qs
  feature_keys-append [] qs = refl
  feature_keys-append (p ∷ ps) qs = ap (◌∷◌ p.feature_key) (feature_keys-append ps qs)

  -- A predicate over the same feature leaves the keys alone.
  pub feature_keys-set_same :
      (ps : List (Predicate F)) (i : ℕ) (p q : Predicate F)
      → get_elem? ps i ≡ some p
      → q.feature_key ≡ p.feature_key
      → feature_keys (set ps i q) ≡ feature_keys ps
  feature_keys-set_same [] i p q h e = refl
  feature_keys-set_same (r ∷ ps) zero p q h e =
      ap (λ k. k ∷ feature_keys ps) (e ∙ ap (λ x. x.feature_key) (sym (some-injective _ _ h)))
  feature_keys-set_same (r ∷ ps) (suc i) p q h e =
      ap (◌∷◌ r.feature_key) (feature_keys-set_same ps i p q h e)

-- ===== src/Search/Mutate/Valid.antt =====
-- A mutation of a valid genome is valid.
use swing_x.Prelude.{ℕ, zero, suc, inl, inr, List, is_empty, Bool-cases}
use swing_x.Float.{Float}
use swing_x.Core.Genome.{Predicate, Genome}
use swing_x.Search.Rng.{Rng, below}
use swing_x.Search.Catalog.{FeatureCatalog}
use swing_x.Search.Mutate.{operator, mutate}
use swing_x.Search.Mutate.Operators.{
  IsValid, flip_op-IsValid, remove_one-IsValid, perturb-IsValid, swap-IsValid, add_one-IsValid,
  add_missing-IsValid, jump-IsValid,
}

module _ {F : Type 0} ⦃f : Float F⦄ (c : FeatureCatalog F) where
  operator-IsValid :
      (roll : ℕ) (ps : List (Predicate F)) (rng : Rng)
      → IsValid c ps
      → IsValid c (operator c roll ps rng).0
  unfolding operator
  operator-IsValid zero ps rng v = perturb-IsValid c _ ps rng v
  operator-IsValid (suc zero) ps rng v = flip_op-IsValid c ps rng v
  operator-IsValid (suc (suc zero)) ps rng v = swap-IsValid c ps rng v
  operator-IsValid (suc (suc (suc zero))) ps rng v = add_one-IsValid c ps rng v
  operator-IsValid (suc (suc (suc (suc zero)))) ps rng v = remove_one-IsValid c ps rng v
  operator-IsValid (suc (suc (suc (suc (suc zero))))) ps rng v = add_missing-IsValid c ps rng v
  operator-IsValid (suc (suc (suc (suc (suc (suc zero)))))) ps rng v = jump-IsValid c ps rng v
  operator-IsValid (suc (suc (suc (suc (suc (suc (suc roll))))))) ps rng v =
      perturb-IsValid c _ ps rng v

  -- Whatever the generator draws, the mutation of a genome with one to four predicates over distinct
  -- features of the catalog, each at an observed value, is such a genome.
  pub mutate-IsValid :
      (g : Genome F) (rng : Rng) → IsValid c g.predicates → IsValid c (mutate g c rng).0.predicates
  unfolding mutate
  mutate-IsValid g rng v = elim (Bool-cases (is_empty c.stats)) [
    | inl e ↦ rw e v
    | inr e ↦
        let (roll, rng') = below 8 rng in
        let kept = operator-IsValid roll g.predicates rng' v in
        rw e (elim (Bool-cases (is_empty (operator c roll g.predicates rng').0)) [
          | inl h ↦ rw h v
          | inr h ↦ rw h kept
        ])
  ]

-- ===== src/Search/Score/Promotion.antt =====
-- Who survives, and who is promoted.
use swing_x.Prelude.{
  ℕ, ◌≡◌, refl, sym, ◌∙◌, inl, inr, true, false, ◌&&◌, Option, none, some, arith, leb, Bool-cases,
  &&-true,
}
use swing_x.Prelude.Int.{ℤ, pos, negsuc, ◌≤ℤ◌, leb_ℤ}
use swing_x.Float.{Float, ◌≼◌}
use swing_x.Core.Genome.{Genome}
use swing_x.Validation.{ValidationResult, evaluate}
use swing_x.Search.Score.{
  OosScore, Evaluated, from_validation, is_survivor, promotable, promotable_by, wilson_lower_bound,
  wilson_z_95, min_promote_precision_lb, min_acted_to_promote, as_usize,
  genome_has_actionable_predicate,
}

acted_enough :
    (n : ℤ)
    → leb_ℤ n (pos 0) ≡ false
    → leb min_acted_to_promote (as_usize n) ≡ true
    → pos min_acted_to_promote ≤ℤ n
acted_enough (pos n) h e = ground arith
acted_enough (negsuc n) h e = absurd (ground arith)

module _ {F : Type 0} ⦃f : Float F⦄ where
  open f use {of_ℕ, decimal, lt, le}

  -- The score of a validation survives exactly on its metrics, whatever the number of regimes: a positive
  -- expectancy, a positive deflated Sharpe ratio and a probability of overfit below one half.
  pub is_survivor-from_validation :
      (id : ℕ) (v : ValidationResult F) (n : ℕ)
      → is_survivor (from_validation id v (evaluate v) n)
        ≡ (lt (of_ℕ 0) v.oos_expectancy_cost_aware && (lt (of_ℕ 0) v.dsr && lt v.pbo (decimal 5 1)))
  unfolding is_survivor evaluate
  is_survivor-from_validation id v n = ground arith

  -- What a promotion rests on.
  pub record IsEarned (g : Genome F) (s : OosScore F) : Type 0 where
    pub passed : s.passed_gate ≡ true
    pub actionable : genome_has_actionable_predicate g ≡ true
    pub acted : pos min_acted_to_promote ≤ℤ s.n_acted_oos
    pub precise :
        min_promote_precision_lb ≼ wilson_lower_bound s.precision_oos s.n_acted_oos wilson_z_95

  -- No bound is given for a count that is not positive.
  wilson_lower_bound-positive :
      (p : F) (n : ℤ) (z : F)
      → le min_promote_precision_lb (of_ℕ 0) ≡ false
      → min_promote_precision_lb ≼ wilson_lower_bound p n z
      → leb_ℤ n (pos 0) ≡ false
  unfolding wilson_lower_bound
  wilson_lower_bound-positive p n z floor h = elim (Bool-cases (leb_ℤ n (pos 0))) [
    | inr e ↦ e
    | inl e ↦
        let zero_bound : le min_promote_precision_lb (of_ℕ 0) ≡ true = rw e at h in
        absurd (cc (sym floor ∙ zero_bound))
  ]

  promotable_by-IsEarned :
      (g : Genome F) (o : Option (OosScore F))
      → le min_promote_precision_lb (of_ℕ 0) ≡ false
      → promotable_by g o ≡ true
      → (s : OosScore F) × (o ≡ some s) × IsEarned g s
  promotable_by-IsEarned g none floor h = cc
  promotable_by-IsEarned g (some s) floor h =
      let (passed, h1) = &&-true _ _ h in
      let (actionable, h2) = &&-true _ _ h1 in
      let (enough, precise) = &&-true _ _ h2 in
      let positive =
        wilson_lower_bound-positive s.precision_oos s.n_acted_oos wilson_z_95 floor precise in
      (
        s,
        refl,
        record {
          passed = passed;
          actionable = actionable;
          acted = acted_enough s.n_acted_oos positive enough;
          precise = precise;
        },
      )

  -- Whoever is promoted has a score that passed the gate, an actionable predicate, at least eight trades
  -- acted on, and a lower bound of its precision at or above the floor. The count is compared after a cast
  -- that wraps below zero, but such a count has no bound.
  pub promotable-IsEarned :
      (ev : Evaluated F)
      → le min_promote_precision_lb (of_ℕ 0) ≡ false
      → promotable ev ≡ true
      → (s : OosScore F) × (ev.score ≡ some s) × IsEarned ev.strategy.genome s
  unfolding promotable
  promotable-IsEarned ev floor h = promotable_by-IsEarned ev.strategy.genome ev.score floor h

-- ===== src/Validation/Gate.antt =====
-- What a passed gate means, and that its reasons tell what failed.
use swing_x.Prelude.{
  ◌≡◌, refl, sym, ◌∙◌, ◌↔◌, Bool, true, false, ◌&&◌, Option, none, some, some-injective, List, [],
  ◌∷◌, is_empty, arith, All, All-append,
}
use swing_x.Prelude.Int.{◌≤ℤ◌, leb_ℤ}
use swing_x.Float.{Float, ◌≺◌}
use swing_x.Validation.{
  ValidationResult, Reason, dsr_low, pbo_high, expectancy_low, few_regimes, message, evaluate,
  evaluate_opt, min_positive_regimes, dsr_min, pbo_max, oos_expectancy_min, push_unless,
}

conj_assoc : (a b c d : Bool) → (a && (b && (c && d))) ≡ ((((true && a) && b) && c) && d)
conj_assoc a b c d = ground arith

module _ {F : Type 0} ⦃f : Float F⦄ where
  -- The raw metrics clear the four thresholds.
  pub record Clears (r : ValidationResult F) : Type 0 where
    pub dsr : dsr_min ≺ r.dsr
    pub pbo : r.pbo ≺ pbo_max
    pub expectancy : oos_expectancy_min ≺ r.oos_expectancy_cost_aware
    pub regimes : min_positive_regimes ≤ℤ r.n_regimes_positive

  -- A reason that the metrics bear out.
  abbrev pub IsBorneOut : ValidationResult F → Reason F → Type 0
  IsBorneOut r (dsr_low x) = (x ≡ r.dsr) × (f.lt dsr_min r.dsr ≡ false)
  IsBorneOut r (pbo_high x) = (x ≡ r.pbo) × (f.lt r.pbo pbo_max ≡ false)
  IsBorneOut r (expectancy_low x) =
      (x ≡ r.oos_expectancy_cost_aware)
      × (f.lt oos_expectancy_min r.oos_expectancy_cost_aware ≡ false)
  IsBorneOut r (few_regimes n) =
      (n ≡ r.n_regimes_positive) × (leb_ℤ min_positive_regimes r.n_regimes_positive ≡ false)
  IsBorneOut r (message m) = ⊥

  pub evaluate-Clears : (r : ValidationResult F) → ((evaluate r).passed ≡ true) ↔ Clears r
  unfolding evaluate
  evaluate-Clears r = (
    λ h. record {
      dsr = ground arith;
      pbo = ground arith;
      expectancy = ground arith;
      regimes = ground arith;
    },
    λ c. ground (arith, c.dsr, c.pbo, c.expectancy, c.regimes),
  )

  -- The gate passes exactly where a validation result is present and its raw metrics clear the four
  -- thresholds. The worker's own verdict plays no part, and an absent result never passes.
  pub evaluate_opt_iff :
      (o : Option (ValidationResult F))
      → ((evaluate_opt o).passed ≡ true) ↔ ((r : ValidationResult F) × (o ≡ some r) × Clears r)
  unfolding evaluate_opt
  evaluate_opt_iff none = (λ h. cc, λ (r, e, c). cc)
  evaluate_opt_iff (some r) = (
    λ h. (r, refl, (evaluate-Clears r).0 h),
    λ (q, e, c). rw (some-injective _ _ e) ((evaluate-Clears q).1 c),
  )

  -- No reason exactly if all the tests so far hold, and every reason is borne out.
  abbrev Tallies : ValidationResult F → Bool → List (Reason F) → Type 0
  Tallies r ok_flag reasons = (is_empty reasons ≡ ok_flag) × All (IsBorneOut r) reasons

  push_unless-Tallies :
      (r : ValidationResult F) (test so_far : Bool) (reason : Reason F) (reasons : List (Reason F))
      → Tallies r so_far reasons
      → (test ≡ false → IsBorneOut r reason)
      → Tallies r (so_far && test) (push_unless test reason reasons)
  push_unless-Tallies r true so_far reason reasons (e, h) out = (ground arith, h)
  push_unless-Tallies r false so_far reason [] (e, h) out = (ground arith, (out refl, tt))
  push_unless-Tallies r false so_far reason (q ∷ reasons) (e, h) out =
      (ground arith, All-append (IsBorneOut r) (q ∷ reasons) (reason ∷ []) h (out refl, tt))

  -- A decision on a result gives no reason exactly when it passes, and each reason that it gives names a
  -- metric that failed, with that metric's value.
  pub evaluate-reasons :
      (r : ValidationResult F)
      → (((evaluate r).passed ≡ true) ↔ (is_empty (evaluate r).reasons ≡ true))
        × All (IsBorneOut r) (evaluate r).reasons
  unfolding evaluate
  evaluate-reasons r =
      let d : Tallies r _ _ =
        push_unless-Tallies r (f.lt dsr_min r.dsr) true (dsr_low r.dsr) [] (refl, tt)
          (λ e. (refl, e)) in
      let p : Tallies r _ _ =
        push_unless-Tallies r (f.lt r.pbo pbo_max) _ (pbo_high r.pbo) _ d (λ e. (refl, e)) in
      let x : Tallies r _ _ =
        push_unless-Tallies r (f.lt oos_expectancy_min r.oos_expectancy_cost_aware) _
          (expectancy_low r.oos_expectancy_cost_aware) _ p (λ e. (refl, e)) in
      let (empty, all_out) =
        push_unless-Tallies r (leb_ℤ min_positive_regimes r.n_regimes_positive) _
          (few_regimes r.n_regimes_positive) _ x (λ e. (refl, e)) in
      let same =
        conj_assoc (f.lt dsr_min r.dsr) (f.lt r.pbo pbo_max)
          (f.lt oos_expectancy_min r.oos_expectancy_cost_aware)
          (leb_ℤ min_positive_regimes r.n_regimes_positive) in
      ((λ h. empty ∙ (sym same ∙ h), λ h. same ∙ (sym empty ∙ h)), all_out)

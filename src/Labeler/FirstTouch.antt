-- ===== src/Labeler/FirstTouch.antt =====
-- `resolve_bar` and the loop of crates/se-labeler/src/triple_barrier.rs.
use swing_x.Prelude.{
  ℕ, zero, suc, ◌+◌, ◌<◌, ◌≡◌, refl, ◌↔◌, inl, inr, ◌≢◌, true, false, Option, none, some,
  some-injective, List, [], ◌∷◌, arith, get_elem?, Option-cases,
}
use swing_x.Float.{Float}
use swing_x.Core.Market.{Side, Bar}
use swing_x.Labeler.{Outcome, target, stop, time, resolve_bar, hits_target, hits_stop, first_touch}

module _ {F : Type 0} ⦃f : Float F⦄ (target_px stop_px : F) (side : Side) where
  abbrev pub touched : Bar F → Option Outcome
  touched b = resolve_bar b.high b.low target_px stop_px side

  -- A bar resolves to a stop exactly when its range reaches the stop, whether or not it reaches the
  -- target too; to a target exactly when it reaches the target and not the stop; to nothing exactly
  -- when it reaches neither; and never to the time limit.
  pub resolve_bar_conservative :
      (high low : F)
      → let o = resolve_bar high low target_px stop_px side in
        let at_target = hits_target side high low target_px in
        let at_stop = hits_stop side high low stop_px in
        ((o ≡ some stop) ↔ (at_stop ≡ true))
        × ((o ≡ some target) ↔ ((at_target ≡ true) × (at_stop ≡ false)))
        × ((o ≡ none) ↔ ((at_target ≡ false) × (at_stop ≡ false)))
        × (o ≢ some time)
  unfolding resolve_bar
  resolve_bar_conservative high low = (
    (λ h. ground arith, λ h. ground arith),
    (λ h. ground arith, λ h. ground arith),
    (λ h. ground arith, λ h. ground arith),
    λ h. ground arith,
  )

  -- No bar of the list before position `d` is touched.
  abbrev pub UntouchedBefore : ℕ → List (Bar F) → Type 0
  UntouchedBefore d span =
      (e : ℕ) (c : Bar F) → e < d → get_elem? span e ≡ some c → touched c ≡ none

  pub first_touch-none :
      (span : List (Bar F)) (k : ℕ)
      → first_touch target_px stop_px side span k ≡ none
      → (e : ℕ) (c : Bar F) → get_elem? span e ≡ some c
      → touched c ≡ none
  unfolding first_touch
  first_touch-none [] k h e c g = cc
  first_touch-none (b ∷ bs) k h zero c g = ground arith
  first_touch-none (b ∷ bs) k h (suc e) c g = first_touch-none bs (k + 1) (ground arith) e c g

  -- The bar at distance `d` is the first that is touched, with this outcome.
  pub record FirstAt (span : List (Bar F)) (d : ℕ) (o : Outcome) : Type 0 where
    pub bar : Bar F
    pub at_bar : get_elem? span d ≡ some bar
    pub resolves : touched bar ≡ some o
    pub before : UntouchedBefore d span

  FirstAt-cons :
      (b : Bar F) (bs : List (Bar F)) (d : ℕ) (o : Outcome)
      → touched b ≡ none
      → FirstAt bs d o
      → FirstAt (b ∷ bs) (suc d) o
  FirstAt-cons b bs d o e first = record {
    bar = first.bar;
    at_bar = first.at_bar;
    resolves = first.resolves;
    before = earlier;
  }
    where
      earlier : (i : ℕ) (c : Bar F) → i < suc d → get_elem? (b ∷ bs) i ≡ some c → touched c ≡ none
      earlier zero c lt g = rw (← some-injective _ _ g) e
      earlier (suc i) c lt g = first.before i c (omega arith) g

  pub first_touch-some :
      (span : List (Bar F)) (k : ℕ) (r : ℕ × Outcome)
      → first_touch target_px stop_px side span k ≡ some r
      → (d : ℕ) × (r.0 ≡ k + d) × FirstAt span d r.1
  unfolding first_touch
  first_touch-some [] k r h = cc
  first_touch-some (b ∷ bs) k r h = elim (Option-cases (touched b)) [
    | inl e ↦
        let (d, at, first) = first_touch-some bs (k + 1) r (ground arith) in
        (suc d, omega arith, FirstAt-cons b bs d r.1 e first)
    | inr (o, e) ↦ (
      0,
      ground arith,
      record {
        bar = b;
        at_bar = refl;
        resolves = ground arith;
        before = λ i c lt g. absurd (omega arith);
      },
    )
  ]

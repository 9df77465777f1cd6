-- ===== src/Signals/Executable.antt =====
-- What a signal of crates/se-signal that is emitted rests on.
use swing_x.Prelude.{
  ℕ, ◌+◌, ◌≡◌, refl, ap, ◌∙◌, ◌⊎◌, inl, inr, true, false, not, ◌&&◌, Option, none, some, List, [],
  ◌∷◌, String, arith, leb, ltb, is_empty, All, Bool-cases, &&-true,
}
use swing_x.Prelude.Int.{ℤ}
use swing_x.Prelude.Results.{
  Result, ok, err, or_fail, >>=-eq-ok, guard-eq-ok, or_fail-eq-ok, ok-injective,
}
use swing_x.Float.{Float, ◌≺◌}
use swing_x.Core.Market.{Bar, Side}
use swing_x.Core.Horizon.{HorizonProfile}
use swing_x.Core.Risk.{stop_price, target_prices}
use swing_x.Core.Genome.{Features, Strategy, fires}
use swing_x.Regime.{is_tradeable, default_config, classify}
use swing_x.Search.Score.{as_usize, min_acted_to_promote, wilson_lower_bound, wilson_z_95}
use swing_x.Signals.{
  Signal, Refusal, StoredOosScore, Desk, blackout_days, in_window, first_release,
  earnings_in_holding_window, no_release, refused, min_live_precision, ok_direction, with_ratios,
  new, precision_floor, draft, build_signal_for, price_not_finite, no_attribution, zero_risk,
  inconsistent_side, no_bars, not_firing, regime_not_tradeable, no_atr, no_oos_score,
}

first_release-none :
    (ticker : String) (after until : ℕ) (rs : List (String × ℕ))
    → first_release ticker after until rs ≡ none
    → All (λ r. in_window ticker after until r ≡ false) rs
unfolding first_release
first_release-none ticker after until [] h = tt
first_release-none ticker after until (r ∷ rs) h =
    elim (Bool-cases (in_window ticker after until r)) [
      | inl e ↦ absurd (ground arith)
      | inr e ↦ (e, first_release-none ticker after until rs (rw e at h))
    ]

module _ {F : Type 0} ⦃f : Float F⦄ where
  open f use {of_ℕ, lt, le, abs, sub, is_finite}

  -- The stop on the losing side of the entry and the first target on the other.
  abbrev pub IsDirected : Side → (entry stop target1 : F) → Type 0
  IsDirected Side.long entry stop target1 = (stop ≺ entry) × (entry ≺ target1)
  IsDirected Side.short entry stop target1 = (entry ≺ stop) × (target1 ≺ entry)

  ok_direction-IsDirected :
      (side : Side) (entry stop target1 : F)
      → ok_direction side entry stop target1 ≡ true
      → IsDirected side entry stop target1
  ok_direction-IsDirected Side.long entry stop target1 h = &&-true _ _ h
  ok_direction-IsDirected Side.short entry stop target1 h = &&-true _ _ h

  -- What `Signal::new` accepts.
  record IsSound (d : Signal F) : Type 0 where
    finite : (is_finite d.entry ≡ true) × (is_finite d.stop ≡ true) × (is_finite d.target1 ≡ true)
    attributed : is_empty d.why ≡ false
    risky : le (abs (sub d.entry d.stop)) (of_ℕ 0) ≡ false
    directed : IsDirected d.side d.entry d.stop d.target1

  new-IsSound : (d : Signal F) {s : Signal F} → new d ≡ ok s → IsSound d × (with_ratios d ≡ s)
  unfolding new
  new-IsSound d h =
      let (finite, k) = guard-eq-ok _ price_not_finite _ h in
      let (attributed, l) = guard-eq-ok (not (is_empty d.why)) no_attribution _ k in
      let (risky, m) = guard-eq-ok (not (le (abs (sub d.entry d.stop)) (of_ℕ 0))) zero_risk _ l in
      let (directed, n) =
        guard-eq-ok (ok_direction d.side d.entry d.stop d.target1) inconsistent_side _ m in
      let (f1, f23) =
        &&-true (is_finite d.entry) (is_finite d.stop && is_finite d.target1) finite in
      let (f2, f3) = &&-true (is_finite d.stop) (is_finite d.target1) f23 in
      (
        record {
          finite = (f1, f2, f3);
          attributed = ground (arith, attributed);
          risky = ground (arith, risky);
          directed = ok_direction-IsDirected d.side d.entry d.stop d.target1 directed;
        },
        ok-injective n,
      )

  -- A precision measured on enough trades has a lower bound that is not below the live floor.
  abbrev pub IsPrecise : Option F → Option ℤ → Type 0
  IsPrecise (some p) (some n) =
      (ltb (as_usize n) min_acted_to_promote ≡ true)
      ⊎ (lt (wilson_lower_bound p n wilson_z_95) min_live_precision ≡ false)
  IsPrecise _ _ = Unit

  precision_floor-IsPrecise :
      (p : Option F) (n : Option ℤ) {u : Unit {0}} → precision_floor p n ≡ ok u → IsPrecise p n
  precision_floor-IsPrecise (some p) (some n) h =
      elim (Bool-cases (leb min_acted_to_promote (as_usize n))) [
        | inr c ↦ inl (ground (arith, c))
        | inl c ↦ elim (Bool-cases (lt (wilson_lower_bound p n wilson_z_95) min_live_precision)) [
          | inr d ↦ inr d
          | inl d ↦ cc (rw c at (rw d at h))
        ]
      ]
  precision_floor-IsPrecise (some p) none h = tt
  precision_floor-IsPrecise none n h = tt

  -- What stands behind a signal: what was known at the bar, and the geometry that it proposes.
  pub record IsExecutable (desk : Desk F) (strategy : Strategy F) (ticker : String)
      (profile : HorizonProfile F) (s : Signal F) : Type 0 where
    pub features : Features F
    pub bar : Bar F
    pub atr : F
    pub score : StoredOosScore F
    pub seen : desk.features_at_latest ticker ≡ some (features, bar, some atr)
    pub fired : fires strategy.genome features ≡ true
    pub tradeable : is_tradeable (classify desk.exp default_config features).label ≡ true
    pub quiet :
        let today = desk.date_naive bar.ts in
        All
          (λ r. in_window ticker today (today + blackout_days profile.max_hold_bars) r ≡ false)
          desk.earnings
    pub scored : desk.latest_oos_score strategy.id ≡ some score
    pub precise : IsPrecise score.precision_oos score.n_acted
    pub owner :
        (s.strategy_id ≡ strategy.id) × (s.ticker ≡ ticker) × (s.side ≡ strategy.genome.side)
    pub at_close : s.entry ≡ bar.close
    pub at_stop : s.stop ≡ stop_price strategy.genome.risk s.entry atr s.side
    pub at_target : (s.target1, s.target2) ≡ target_prices strategy.genome.risk s.entry atr s.side
    pub finite :
        (is_finite s.entry ≡ true) × (is_finite s.stop ≡ true) × (is_finite s.target1 ≡ true)
    pub attributed : is_empty s.why ≡ false
    pub directed : IsDirected s.side s.entry s.stop s.target1

  no_release-none : (o : Option ℕ) {u : Unit {0}} → no_release {F = F} o ≡ ok u → o ≡ none
  no_release-none none h = refl
  no_release-none (some date) h = cc

  refused-eq-ok : {A : Type 0} (r : Result Refusal A) {x : A} → refused {F = F} r ≡ ok x → r ≡ ok x
  refused-eq-ok (ok x) h = ap ok (ok-injective h)
  refused-eq-ok (err why) h = cc

  -- A signal that is emitted is executable: the genome fires at the latest bar, in a tradeable regime and
  -- with no release of earnings in the holding window; the strategy has a score, whose precision clears the
  -- live floor where it was measured on enough trades; the entry is the close, the stop and the targets are
  -- those of the genome's risk model; the entry, the stop and the first target are finite, the stop and the
  -- first target each on its side of the entry; and it has drivers.
  pub build_signal_for-IsExecutable :
      (desk : Desk F) (strategy : Strategy F) (ticker : String) (profile : HorizonProfile F)
      (s : Signal F)
      → build_signal_for desk strategy ticker profile ≡ ok s
      → IsExecutable desk strategy ticker profile s
  unfolding build_signal_for
  build_signal_for-IsExecutable desk strategy ticker profile s h =
      let (found, hfound, h1) = >>=-eq-ok (or_fail (desk.features_at_latest ticker) no_bars) _ h in
      let (fired, h2) = guard-eq-ok (fires strategy.genome found.0) not_firing _ h1 in
      let (tradeable, h3) =
        guard-eq-ok (is_tradeable (classify desk.exp default_config found.0).label)
          regime_not_tradeable _ h2 in
      let (_, quiet, h4) =
        >>=-eq-ok (no_release (earnings_in_holding_window desk ticker found.1.ts profile)) _ h3 in
      let (atr, hatr, h5) = >>=-eq-ok (or_fail found.2 no_atr) _ h4 in
      let (score, hscore, h6) =
        >>=-eq-ok (or_fail (desk.latest_oos_score strategy.id) no_oos_score) _ h5 in
      let (_, precise, h7) = >>=-eq-ok (precision_floor score.precision_oos score.n_acted) _ h6 in
      let d = draft desk strategy ticker profile found.0 found.1 atr score in
      let (sound, same) = new-IsSound d (refused-eq-ok (new d) h7) in
      rw (← same) (record {
        features = found.0;
        bar = found.1;
        atr = atr;
        score = score;
        seen =
            or_fail-eq-ok (desk.features_at_latest ticker) no_bars hfound
            ∙ ap (λ a. some (found.0, found.1, a)) (or_fail-eq-ok found.2 no_atr hatr);
        fired = fired;
        tradeable = tradeable;
        quiet = first_release-none ticker _ _ desk.earnings (no_release-none _ quiet);
        scored = or_fail-eq-ok (desk.latest_oos_score strategy.id) no_oos_score hscore;
        precise = precision_floor-IsPrecise score.precision_oos score.n_acted precise;
        owner = (refl, refl, refl);
        at_close = refl;
        at_stop = refl;
        at_target = refl;
        finite = sound.finite;
        attributed = sound.attributed;
        directed = sound.directed;
      })

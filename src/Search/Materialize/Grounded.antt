-- ===== src/Search/Materialize/Grounded.antt =====
-- What a manager works on was known at its bar, and observed.
use swing_x.Prelude.{
  ℕ, ◌≡◌, inl, inr, false, List, [], ◌∷◌, map, String, keep_if, is_empty, All, OneOf, refl,
  Bool-cases,
}
use swing_x.Float.{Float}
use swing_x.Core.Horizon.{HorizonProfile}
use swing_x.Store.{Tables}
use swing_x.Features.Events.{Calendar}
use swing_x.Search.Backtest.{FeatureWindow}
use swing_x.Search.Window.{build_window}
use swing_x.Search.Window.Known.{IsKnownPoint, build_window-IsKnownPoint}
use swing_x.Search.Observe.Observed.{IsGrounded, from_windows-IsGrounded}
use swing_x.Search.Materialize.{Settings, has_points, materialize, new_manager}

module _ {F : Type 0} ⦃f : Float F⦄ (ln : F → F) (calendar : Calendar) (db : Tables F) where
  -- A window with points, of a ticker of the universe, whose features are those of the rows known at their bar.
  pub record IsKnownWindow (universe : List String) (w : FeatureWindow F) : Type 0 where
    pub has_some : is_empty w.points ≡ false
    pub ticker : String
    pub among : OneOf ticker universe
    pub known_points : All (IsKnownPoint ln calendar db ticker w.bars) w.points

  keep_if-IsKnownWindow :
      (universe tickers : List String) (from to : ℕ) (profile : HorizonProfile F)
      → ((t : String) → OneOf t tickers → OneOf t universe)
      → All (IsKnownWindow universe) (
          keep_if
            (has_points ln calendar)
            (map (λ t. build_window ln calendar db t from to profile) tickers))
  keep_if-IsKnownWindow universe [] from to profile sub = tt
  keep_if-IsKnownWindow universe (t ∷ ts) from to profile sub =
      let w = build_window ln calendar db t from to profile in
      let more = keep_if-IsKnownWindow universe ts from to profile (λ s o. sub s (inr o)) in
      elim (Bool-cases (is_empty w.points)) [
        | inl e ↦ rw e more
        | inr e ↦ rw e (
          (record {
            has_some = e;
            ticker = t;
            among = sub t (inl refl);
            known_points = build_window-IsKnownPoint ln calendar db t from to profile;
          }),
          more,
        )
      ]

  -- What a manager works on: its windows have points, each with the features that a store would give which held
  -- only the rows known at its bar; and every feature of its catalog has the layer of its key, varies, has at
  -- least as many observations as asked for, and only values that are the finite value of that feature at a
  -- bar of one of the windows.
  pub new_manager-IsGrounded :
      (s : Settings F)
      → let m = new_manager ln calendar db s in
        All (IsKnownWindow s.universe) m.windows
        × All (IsGrounded m.windows s.min_feature_obs) m.cfg.catalog.stats
  unfolding new_manager materialize
  new_manager-IsGrounded s =
      let windows = materialize ln calendar db s.universe s.from s.to s.profile in
      (
        keep_if-IsKnownWindow s.universe s.universe s.from s.to s.profile (λ t o. o),
        from_windows-IsGrounded windows s.min_feature_obs,
      )

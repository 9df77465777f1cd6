-- ===== src/Search/Window/Known.antt =====
-- The features of a window see nothing that is dated or learned after their own bar.
use swing_x.Prelude.{
  ℕ, ◌≡◌, refl, sym, ap, inl, inr, Option, none, some, List, [], ◌∷◌, String, get_elem?, All,
  All-append, Option-cases,
}
use swing_x.Float.{Float}
use swing_x.Core.Market.{Bar}
use swing_x.Core.Horizon.{HorizonProfile}
use swing_x.Store.{Tables}
use swing_x.Store.Pit.{pit, last?, bars}
use swing_x.Store.Known.{known, pit-known, pit-agrees}
use swing_x.Features.{null_proprietary}
use swing_x.Features.Events.{Calendar}
use swing_x.Search.Backtest.{BarPoint}
use swing_x.Search.Window.{
  collect_finite, computed, features_at, point_at, point_of, points_of, stored_bar_ts, build_window,
}

module _ {F : Type 0} ⦃f : Float F⦄ (ln : F → F) (calendar : Calendar) where
  -- No look-ahead: two stores that hold the same rows known at the decision bar give the same features
  -- there, of all five modules.
  pub features_at-agrees :
      (db db' : Tables F) (ticker : String) (ts : ℕ)
      → known ts db ≡ known ts db'
      → features_at ln calendar db ticker ts ≡ features_at ln calendar db' ticker ts
  unfolding features_at
  features_at-agrees db db' ticker ts same =
      ap (λ p. collect_finite ln calendar [] (computed ln calendar null_proprietary p))
        (pit-agrees db db' ticker ts same)

  features_at-known :
      (db : Tables F) (ticker : String) (ts : ℕ)
      → features_at ln calendar db ticker ts ≡ features_at ln calendar (known ts db) ticker ts
  unfolding features_at
  features_at-known db ticker ts =
      ap (λ p. collect_finite ln calendar [] (computed ln calendar null_proprietary p))
        (sym (pit-known db ticker ts))

  -- A point stands at its bar of the series, and its features are those of the rows known at that bar.
  abbrev pub IsKnownPoint : Tables F → String → List (Bar F) → BarPoint F → Type 0
  IsKnownPoint db ticker bs p =
      (get_elem? bs p.idx ≡ some p.bar)
      × (p.features ≡ features_at ln calendar (known p.bar.ts db) ticker p.bar.ts)

  point_at-IsKnownPoint :
      (db : Tables F) (ticker : String) (profile : HorizonProfile F) (bs : List (Bar F)) (idx : ℕ)
      (o : Option (Bar F))
      → get_elem? bs idx ≡ o
      → All (IsKnownPoint db ticker bs) (point_at ln calendar db ticker profile bs idx o)
  point_at-IsKnownPoint db ticker profile bs idx none at = tt
  point_at-IsKnownPoint db ticker profile bs idx (some bar) at =
      ((at, features_at-known db ticker bar.ts), tt)

  point_of-IsKnownPoint :
      (db : Tables F) (ticker : String) (profile : HorizonProfile F) (bs : List (Bar F))
      (o : Option ℕ)
      → All (IsKnownPoint db ticker bs) (point_of ln calendar db ticker profile bs o)
  point_of-IsKnownPoint db ticker profile bs none = tt
  point_of-IsKnownPoint db ticker profile bs (some idx) =
      point_at-IsKnownPoint db ticker profile bs idx _ refl

  points_of-IsKnownPoint :
      (db : Tables F) (ticker : String) (profile : HorizonProfile F) (bs : List (Bar F))
      (times : List ℕ)
      → All (IsKnownPoint db ticker bs) (points_of ln calendar db ticker profile bs times)
  unfolding points_of
  points_of-IsKnownPoint db ticker profile bs [] = tt
  points_of-IsKnownPoint db ticker profile bs (ts ∷ more) =
      All-append (IsKnownPoint db ticker bs) _ _ (point_of-IsKnownPoint db ticker profile bs _)
        (points_of-IsKnownPoint db ticker profile bs more)

  -- Every point of a window stands at its bar of the series, and its features are those that a store would
  -- give which held only the rows known at that bar.
  pub build_window-IsKnownPoint :
      (db : Tables F) (ticker : String) (from to : ℕ) (profile : HorizonProfile F)
      → let w = build_window ln calendar db ticker from to profile in
        All (IsKnownPoint db ticker w.bars) w.points
  unfolding build_window
  build_window-IsKnownPoint db ticker from to profile =
      let times = stored_bar_ts db ticker from to "daily" in
      elim (Option-cases (last? times)) [
        | inl e ↦ rw e tt
        | inr (t, e) ↦
            rw e (
              points_of-IsKnownPoint db ticker profile (bars (pit db ticker t) "daily" 4_000) times)
      ]

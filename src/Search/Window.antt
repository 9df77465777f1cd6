-- ===== src/Search/Window.antt =====
-- The materialisation of a window, `build_window` of crates/se-search/src/feature_matrix.rs: the features of every
-- bar, each read at that bar. The concurrency of the reads, which are put back in order, is not modelled.
pub mod Known
pub mod Tests
use swing_x.Prelude.{
  map_insert, ℕ, zero, suc, ◌+◌, Bool, true, false, ◌&&◌, Option, none, some, List, [], ◌∷◌, ◌++◌,
  map, String, str_eq, ◌==◌, leb, ltb, if◌then◌else◌, length, take, keep_if, get_elem?,
}
use swing_x.Float.{Float}
use swing_x.Core.Market.{Bar}
use swing_x.Core.Horizon.{HorizonProfile}
use swing_x.Core.Genome.{Features}
use swing_x.Store.{Feature, BarRow, Tables}
use swing_x.Store.Pit.{Pit, pit, bars, order_by, last?}
use swing_x.Features.{Hooks, null_proprietary}
use swing_x.Features.Indicators.{atr}
use swing_x.Features.Tradeability.{compute_tradeability}
use swing_x.Features.RegimeLayer.{compute_regime}
use swing_x.Features.Location.{compute_location}
use swing_x.Features.Trigger.{compute_trigger}
use swing_x.Features.Events.{Calendar, compute_events}
use swing_x.Search.Backtest.{BarPoint, FeatureWindow}

module _ {F : Type 0} where
  abbrev pub earlier_row : BarRow F → BarRow F → Bool
  earlier_row a b = ltb a.bar.ts b.bar.ts

  unfoldable pub stored_bar_ts : Tables F → String → ℕ → ℕ → String → List ℕ
  stored_bar_ts db ticker from to cadence =
      map (λ (r : BarRow F). r.bar.ts)
        (order_by earlier_row (
          keep_if
            (λ r.
              str_eq r.bar.ticker ticker
              && (str_eq r.cadence cadence && (leb from r.bar.ts && leb r.bar.ts to)))
            db.bars))

  -- The index of a time among bars counted from `i`: the last of several, as the map keeps it.
  unfoldable pub pos_of : ℕ → ℕ → List (Bar F) → Option ℕ
  pos_of ts i [] = none
  pos_of ts i (b ∷ bs) = elim (pos_of ts (i + 1) bs) [
    | some j ↦ some j
    | none ↦ if b.ts == ts then some i else none
  ]

module _ {F : Type 0} ⦃f : Float F⦄ (ln : F → F) (calendar : Calendar) where
  open f use {of_ℕ, lt, is_finite}

  -- The five modules, in their order.
  abbrev pub computed : Hooks F → Pit F → List (Feature F)
  computed hooks p =
      compute_tradeability ln hooks p
      ++ (compute_regime ln hooks p
          ++ (compute_location p ++ (compute_trigger hooks p ++ compute_events calendar p)))

  abbrev pub collect_finite : Features F → List (Feature F) → Features F
  collect_finite m [] = m
  collect_finite m (x ∷ xs) =
      collect_finite (if is_finite x.value then map_insert x.key x.value m else m) xs

  unfoldable pub features_at : Tables F → String → ℕ → Features F
  features_at db ticker ts = collect_finite [] (computed null_proprietary (pit db ticker ts))

  -- A positive finite range.
  abbrev pub usable : Option F → Option F
  usable none = none
  usable (some a) = if lt (of_ℕ 0) a && is_finite a then some a else none

  -- An index out of range, at which the source panics, gives no point: it was found in the same bars.
  abbrev pub point_at :
      Tables F → String → HorizonProfile F → List (Bar F) → ℕ → Option (Bar F) → List (BarPoint F)
  point_at db ticker profile bs idx none = []
  point_at db ticker profile bs idx (some bar) =
      record {
        bar = bar;
        idx = idx;
        features = features_at db ticker bar.ts;
        atr = usable (atr (take (idx + 1) bs) profile.atr_lookback);
      }
      ∷ []

  abbrev pub point_of :
      Tables F → String → HorizonProfile F → List (Bar F) → Option ℕ → List (BarPoint F)
  point_of db ticker profile bs none = []
  point_of db ticker profile bs (some idx) = point_at db ticker profile bs idx (get_elem? bs idx)

  -- One point for each decision bar that the series has.
  unfoldable pub points_of :
      Tables F → String → HorizonProfile F → List (Bar F) → List ℕ → List (BarPoint F)
  points_of db ticker profile bs [] = []
  points_of db ticker profile bs (ts ∷ more) =
      point_of db ticker profile bs (pos_of ts 0 bs) ++ points_of db ticker profile bs more

  abbrev pub window_until :
      Tables F → String → HorizonProfile F → List ℕ → Option ℕ → FeatureWindow F
  window_until db ticker profile bar_ts none = record { ticker = ticker; bars = []; points = [] }
  window_until db ticker profile bar_ts (some last_ts) =
      let bs = bars (pit db ticker last_ts) "daily" 4_000 in
      record { ticker = ticker; bars = bs; points = points_of db ticker profile bs bar_ts }

  unfoldable pub build_window : Tables F → String → ℕ → ℕ → HorizonProfile F → FeatureWindow F
  build_window db ticker from to profile =
      let bar_ts = stored_bar_ts db ticker from to "daily" in
      window_until db ticker profile bar_ts (last? bar_ts)

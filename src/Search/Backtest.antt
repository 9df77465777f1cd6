-- ===== src/Search/Backtest.antt =====
-- crates/se-search/src/backtest.rs, with the points of feature_matrix.rs and the entries of
-- crates/se-labeler/src/assemble.rs. The exponential of the regime classifier is a parameter.
pub mod Dataset
pub mod Replay
pub mod Tests
use Prim.Native.Char.{code}
use Prim.Native.String.{◌++◌ as str_append}
use swing_x.Prelude.{
  ℕ, zero, suc, ◌+◌, max, ◌≡◌, Bool, true, false, not, ◌||◌, Option, none, some, List, [], ◌∷◌,
  ◌++◌, map, String, leb, ◌==◌, if◌then◌else◌, length, is_empty,
}
use swing_x.Prelude.Results.{Result, ok, err}
use swing_x.Float.{Float}
use swing_x.Core.Market.{Bar}
use swing_x.Core.Horizon.{HorizonProfile}
use swing_x.Core.Genome.{Features, Genome, fires}
use swing_x.Labeler.{LabelEvent, LabelError, label_one_with_risk}
use swing_x.Regime.{RegimeLabel, as_str, is_tradeable, default_config, classify}
use swing_x.Search.Firewall.{DatasetRow, firewall_test_era}

pub record BarPoint (F : Type 0) : Type 0 where
  pub bar : Bar F
  pub idx : ℕ
  pub features : Features F
  pub atr : Option F

pub record FeatureWindow (F : Type 0) : Type 0 where
  pub ticker : String
  pub bars : List (Bar F)
  pub points : List (BarPoint F)

pub record LabeledEntry (F : Type 0) : Type 0 where
  pub event : LabelEvent F
  pub features : Features F
  pub regime : Option String

pub record BacktestResult (F : Type 0) : Type 0 where
  pub entries : List (LabeledEntry F)
  pub skipped_regime : ℕ
  pub skipped_unlabelable : ℕ

-- The result so far and the index of the last entry.
pub record Walk (F : Type 0) : Type 0 where
  pub result : BacktestResult F
  pub last_entry_idx : Option ℕ

-- The part behind the first dot, with an underscore for each dot.
underscored : String → String
underscored String.[] = ""
underscored (String.◌∷◌ c s) =
    let rest = underscored s in if code c == b'.' then str_append "_" rest else String.◌∷◌ c rest

unfoldable pub dotted_to_column : String → String
unfolding underscored
dotted_to_column String.[] = ""
dotted_to_column (String.◌∷◌ c s) =
    let rest = dotted_to_column s in
    if code c == b'.' then str_append "__" (underscored s) else String.◌∷◌ c rest

abbrev pub in_cooldown : ℕ → Option ℕ → ℕ → Bool
in_cooldown cooldown none idx = false
in_cooldown cooldown (some prev) idx = leb idx (prev + cooldown)

module _ {F : Type 0} where
  abbrev pub to_column_features : Features F → Features F
  to_column_features features = map (λ (k, v). (dotted_to_column k, v)) features

  abbrev pub empty_result : BacktestResult F
  empty_result = record { entries = []; skipped_regime = 0; skipped_unlabelable = 0 }

  abbrev pub skip_regime : Walk F → Walk F
  skip_regime w = record w {
    result = record w.result { skipped_regime = suc w.result.skipped_regime };
  }

  abbrev pub skip_unlabelable : Walk F → Walk F
  skip_unlabelable w = record w {
    result = record w.result { skipped_unlabelable = suc w.result.skipped_unlabelable };
  }

  -- A label is an entry; an error skips the bar.
  abbrev pub record_label :
      Walk F → BarPoint F → RegimeLabel → Result LabelError (LabelEvent F) → Walk F
  record_label w p regime (err e) = skip_unlabelable w
  record_label w p regime (ok event) = record {
    result = record w.result {
      entries =
          w.result.entries
          ++ record {
            event = event;
            features = to_column_features p.features;
            regime = some (as_str regime);
          }
            ∷ [];
    };
    last_entry_idx = some p.idx;
  }

module _ {F : Type 0} ⦃f : Float F⦄ (exp : F → F) (genome : Genome F) (profile : HorizonProfile F)
    (bars : List (Bar F)) where
  abbrev pub regime_at : BarPoint F → RegimeLabel
  regime_at p = (classify exp default_config p.features).label

  abbrev pub label_point : Walk F → BarPoint F → Option F → Walk F
  label_point w p none = skip_unlabelable w
  label_point w p (some atr) =
      if leb (length bars) (p.idx + 1)
      then skip_unlabelable w
      else record_label w p (regime_at p)
          (label_one_with_risk profile bars p.idx genome.side atr genome.risk)

  -- One decision bar.
  unfoldable pub visit : Walk F → BarPoint F → Walk F
  visit w p =
      if in_cooldown (max profile.min_hold_bars 1) w.last_entry_idx p.idx
      then w
      else if not (fires genome p.features)
      then w
      else if not (is_tradeable (regime_at p))
      then skip_regime w
      else label_point w p p.atr

  unfoldable pub walk : Walk F → List (BarPoint F) → Walk F
  walk w [] = w
  walk w (p ∷ ps) = walk (visit w p) ps

module _ {F : Type 0} ⦃f : Float F⦄ (exp : F → F) where
  unfoldable pub backtest : Genome F → FeatureWindow F → HorizonProfile F → BacktestResult F
  backtest genome window profile =
      let start : Walk F = record { result = empty_result; last_entry_idx = none } in
      let done = walk exp genome profile window.bars start window.points in
      if is_empty window.points || is_empty window.bars then empty_result else done.result

  abbrev assemble_dataset : List (LabeledEntry F) → List (DatasetRow F)
  assemble_dataset entries =
      map
        (λ e. record {
          ts = e.event.entry_ts;
          t1 = e.event.t1;
          label = e.event.ret_r;
          regime = e.regime;
          features = e.features;
        })
        entries

  insert_row : DatasetRow F → List (DatasetRow F) → List (DatasetRow F)
  insert_row r [] = r ∷ []
  insert_row r (q ∷ qs) =
      let rest = insert_row r qs in if leb r.ts q.ts then r ∷ q ∷ qs else q ∷ rest

  -- `sort_by` on the entry time, which is stable.
  unfoldable pub sort_rows : List (DatasetRow F) → List (DatasetRow F)
  unfolding insert_row
  sort_rows [] = []
  sort_rows (r ∷ rs) = insert_row r (sort_rows rs)

  unfoldable pub assemble : BacktestResult F → List (DatasetRow F)
  assemble result = sort_rows (assemble_dataset result.entries)

  -- The rows of all windows behind the firewall, of crates/se-search/src/population.rs.
  collect :
      Genome F → HorizonProfile F → Option (ℕ × ℕ) → List (FeatureWindow F) → List (DatasetRow F)
  collect genome profile era [] = []
  collect genome profile era (w ∷ ws) =
      (firewall_test_era (assemble (backtest genome w profile)) era).0
      ++ collect genome profile era ws

  unfoldable pub build_dataset :
      Genome F
      → HorizonProfile F
      → Option (ℕ × ℕ)
      → List (FeatureWindow F)
      → List (DatasetRow F) × ℕ
  unfolding collect
  build_dataset genome profile era windows =
      let all_rows = sort_rows (collect genome profile era windows) in (all_rows, length all_rows)

-- ===== src/Search/Materialize.antt =====
-- The construction of the population manager, `PopulationManager::new` and the configuration of
-- crates/se-search/src/population.rs. The windows stand in the order of the universe: the source has them in the
-- order in which their reads complete.
pub mod Grounded
pub mod Tests
use swing_x.Prelude.{
  ℕ, ◌-◌, ◌*◌, Bool, true, false, not, Option, none, List, [], ◌∷◌, map, String, keep_if, is_empty,
}
use swing_x.Float.{Float}
use swing_x.Core.Horizon.{HorizonProfile}
use swing_x.Core.Risk.{RiskModel, from_profile}
use swing_x.Store.{Tables}
use swing_x.Features.Events.{Calendar}
use swing_x.Search.Score.{ScoreConfig}
use swing_x.Search.RiskSearch.{risk_space}
use swing_x.Search.Backtest.{FeatureWindow}
use swing_x.Search.Window.{build_window}
use swing_x.Search.Observe.{from_windows}
use swing_x.Search.Persist.{Scanner, etf}
use swing_x.Search.Evolve.{Manager}

-- The whole of `SearchConfig`.
pub record Settings (F : Type 0) : Type 0 where
  pub profile : HorizonProfile F
  pub universe : List String
  pub from : ℕ
  pub to : ℕ
  pub base_seed : ℕ
  pub max_predicates : ℕ
  pub min_feature_obs : ℕ
  pub score : ScoreConfig
  pub risk : RiskModel F
  pub lock_risk : Bool
  pub scanner : Scanner
  pub offspring_pool_mult : F
  pub test_era : Option (ℕ × ℕ)

-- `ScoreConfig::default()`
abbrev pub default_score : ScoreConfig
default_score = record { n_groups = 6; k_test_groups = 2; n_trials = 12; n_search_trials = 1 }

module _ {F : Type 0} ⦃f : Float F⦄ where
  -- `SearchConfig::new` at a time, in seconds.
  unfoldable pub default_settings : ℕ → HorizonProfile F → List String → Settings F
  default_settings now profile universe = record {
    profile = profile;
    universe = universe;
    from = now - 730 * 86_400;
    to = now;
    base_seed = 0x0005_EED0_F5EA_C401;
    max_predicates = 3;
    min_feature_obs = 30;
    score = default_score;
    risk = from_profile profile;
    lock_risk = false;
    scanner = etf;
    offspring_pool_mult = f.of_ℕ 2;
    test_era = none;
  }

  module _ (ln : F → F) (calendar : Calendar) where
    abbrev pub has_points : FeatureWindow F → Bool
    has_points w = not (is_empty w.points)

    unfoldable pub materialize :
        Tables F → List String → ℕ → ℕ → HorizonProfile F → List (FeatureWindow F)
    materialize db universe from to profile =
        keep_if has_points (map (λ t. build_window ln calendar db t from to profile) universe)

    unfoldable pub new_manager : Tables F → Settings F → Manager F
    new_manager db s =
        let windows = materialize db s.universe s.from s.to s.profile in
        record {
          cfg = record {
            horizon = s.profile.horizon;
            max_predicates = s.max_predicates;
            risk = s.risk;
            lock_risk = s.lock_risk;
            offspring_pool_mult = s.offspring_pool_mult;
            catalog = from_windows windows s.min_feature_obs;
            space = risk_space s.risk;
          };
          profile = s.profile;
          score = s.score;
          scanner = s.scanner;
          test_era = s.test_era;
          base_seed = s.base_seed;
          windows = windows;
        }

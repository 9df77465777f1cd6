-- ===== src/Search/Materialize/Tests.antt =====
-- A manager on a store of two bars, and the theorem at it.
use swing_x.Prelude.{[], ◌∷◌, All}
use swing_x.Float.Fixed.{Fixed, fixed_float}
use swing_x.Core.Horizon.{swing_profile}
use swing_x.Search.Observe.Observed.{IsGrounded}
use swing_x.Search.Materialize.{Settings, default_settings, new_manager}
use swing_x.Search.Materialize.Grounded.{IsKnownWindow, new_manager-IsGrounded}
use swing_x.Search.Window.Tests.{calendar, identity, today}

abbrev settings : Settings Fixed
settings = record (default_settings 9 swing_profile ("SPY" ∷ [])) { min_feature_obs = 1 }

new_manager-IsGrounded_example :
    let m = new_manager identity calendar today settings in
    All (IsKnownWindow identity calendar today settings.universe) m.windows
    × All (IsGrounded m.windows settings.min_feature_obs) m.cfg.catalog.stats
new_manager-IsGrounded_example = new_manager-IsGrounded identity calendar today settings

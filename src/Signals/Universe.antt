-- ===== src/Signals/Universe.antt =====
-- `generate_signals` of crates/se-signal/src/lib.rs: which signals it gives.
use swing_x.Prelude.{◌≡◌, List, String, OneOf}
use swing_x.Prelude.Results.{ok}
use swing_x.Float.{Float}
use swing_x.Core.Horizon.{HorizonProfile}
use swing_x.Core.Genome.{Strategy}
use swing_x.Signals.{Signal, Desk, build_signal_for}

module _ {F : Type 0} ⦃f : Float F⦄ where
  -- A strategy of the list and a ticker of the universe of which the signal is built.
  abbrev pub IsBuilt :
      Desk F → HorizonProfile F → List String → List (Strategy F) → Signal F → Type 0
  IsBuilt desk profile universe promoted s =
      (strategy : Strategy F) × (ticker : String) × OneOf strategy promoted
      × OneOf ticker universe
      × (build_signal_for desk strategy ticker profile ≡ ok s)

-- ===== src/Labeler/Batch.antt =====
-- `label_events_with_risk` of crates/se-labeler/src/triple_barrier.rs.
use swing_x.Prelude.{ℕ, ◌≡◌, List, [], ◌∷◌}
use swing_x.Prelude.Results.{ok}
use swing_x.Float.{Float}
use swing_x.Core.Market.{Side, Bar}
use swing_x.Core.Horizon.{HorizonProfile}
use swing_x.Core.Risk.{RiskModel}
use swing_x.Labeler.{LabelEvent, label_one_with_risk}

module _ {F : Type 0} ⦃f : Float F⦄ (profile : HorizonProfile F) (bars : List (Bar F))
    (risk : RiskModel F) where
  -- Entry by entry, in the same order, the events are the labels.
  abbrev pub EachLabelled : List (ℕ × Side × F) → List (LabelEvent F) → Type 0
  EachLabelled [] [] = Unit
  EachLabelled ((i, side, atr) ∷ entries) (event ∷ events) =
      (label_one_with_risk profile bars i side atr risk ≡ ok event) × EachLabelled entries events
  EachLabelled _ _ = ⊥

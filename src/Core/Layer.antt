-- ===== src/Core/Layer.antt =====
-- `enum Layer` of crates/se-core/src/layer.rs.
use swing_x.Prelude.{ℕ, ◌≡◌, Bool, true, List, [], ◌∷◌, arith, String, ◌==◌}

pub data Layer : Type 0 where
  tradeability regime location trigger event : Layer

abbrev pub all_layers : List Layer
all_layers = Layer.tradeability ∷ Layer.regime ∷ Layer.location ∷ Layer.trigger ∷ Layer.event ∷ []

abbrev pub as_str : Layer → String
as_str Layer.tradeability = "tradeability"
as_str Layer.regime = "regime"
as_str Layer.location = "location"
as_str Layer.trigger = "trigger"
as_str Layer.event = "event"

-- The order of declaration, by which `==` is derived.
abbrev pub rank : Layer → ℕ
rank Layer.tradeability = 0
rank Layer.regime = 1
rank Layer.location = 2
rank Layer.trigger = 3
rank Layer.event = 4

abbrev pub same_layer : Layer → Layer → Bool
same_layer a b = rank a == rank b

pub eq_of_same_layer : (a b : Layer) → same_layer a b ≡ true → a ≡ b
eq_of_same_layer a b h = ground arith

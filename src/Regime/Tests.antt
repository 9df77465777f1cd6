-- ===== src/Regime/Tests.antt =====
-- The classifier on two feature maps.
use swing_x.Prelude.{◌≡◌, refl, not, ◌&&◌, [], ◌∷◌, leb}
use swing_x.Prelude.Int.{pos}
use swing_x.Float.Fixed.{Fixed, num, fixed_float}
use swing_x.Core.Genome.{Features}
use swing_x.Regime.{RegimeLabel, is_tradeable, default_config, core_count, out_of_bounds, classify}
use swing_x.Regime.Gate.{classify-is_tradeable}

-- A stand-in for the exponential: it only has to be some function.
abbrev identity : Fixed → Fixed
identity x = x

abbrev calm : Features Fixed
calm =
    ("regime.rv_percentile", num (pos 2_000))
    ∷ ("regime.vix_vix3m", num (pos 9_000))
    ∷ ("regime.vvix", num (pos 850_000))
    ∷ []

withheld :
    (classify identity default_config (("regime.vvix", num (pos 850_000)) ∷ [])).label
    ≡ RegimeLabel.out_of_distribution
unfolding classify core_count out_of_bounds
withheld = refl

classify-is_tradeable_example :
    is_tradeable (classify identity default_config calm).label
    ≡ (leb 3 (core_count calm) && not (out_of_bounds calm))
classify-is_tradeable_example = classify-is_tradeable identity default_config calm

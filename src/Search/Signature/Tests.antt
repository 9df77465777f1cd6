-- ===== src/Search/Signature/Tests.antt =====
-- A genome of two predicates in either order, and the theorem at them.
use mathlib.Core.List.{Permᴰ}
use swing_x.Prelude.{ℕ, ◌≡◌, refl, [], ◌∷◌, String}
use swing_x.Prelude.Int.{pos}
use swing_x.Float.Fixed.{Fixed, num, fixed_float}
use swing_x.Core.Layer.{Layer}
use swing_x.Core.Market.{Side}
use swing_x.Core.Horizon.{Horizon}
use swing_x.Core.Risk.{default_const}
use swing_x.Core.Genome.{CmpOp, Predicate, Genome, fires}
use swing_x.Core.Describe.{fmt_num, trim_end, describe_risk}
use swing_x.Store.Pit.{order_by, insert_sorted}
use swing_x.Search.Signature.{join, genome_signature}
use swing_x.Search.Signature.Order.{genome_signature-Perm}

-- A stand-in for the text of a number.
abbrev text : ℕ → Fixed → String
text k v = "2.50"

abbrev rsi : Predicate Fixed
rsi = record {
  layer = Layer.trigger;
  feature_key = "trigger.rsi14";
  op = CmpOp.gt;
  threshold = num (pos 400_000);
}

abbrev adx : Predicate Fixed
adx = record {
  layer = Layer.regime;
  feature_key = "regime.adx";
  op = CmpOp.lte;
  threshold = num (pos 250_000);
}

abbrev genome : Genome Fixed
genome = record {
  side = Side.short;
  horizon = Horizon.swing;
  predicates = rsi ∷ adx ∷ [];
  risk = default_const;
}

signed :
    genome_signature text genome
    ≡ "-1::swing::[regime|regime.adx|<=|2.50&trigger|trigger.rsi14|>|2.50]::stop=2.5ATR target=2.5R/2.5R"
unfolding genome_signature order_by insert_sorted join describe_risk fmt_num trim_end
signed = refl

genome_signature-Perm_example :
    (genome_signature text (record genome { predicates = adx ∷ rsi ∷ [] })
      ≡ genome_signature text genome)
    × (fires (record genome { predicates = adx ∷ rsi ∷ [] }) (("regime.adx", num (pos 100)) ∷ [])
        ≡ fires genome (("regime.adx", num (pos 100)) ∷ []))
genome_signature-Perm_example =
    genome_signature-Perm text genome (adx ∷ rsi ∷ []) (("regime.adx", num (pos 100)) ∷ [])
      (Permᴰ.swap refl refl)

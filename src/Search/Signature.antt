-- ===== src/Search/Signature.antt =====
-- The canonical signature of a genome, `genome_signature` of crates/se-search/src/score.rs. `format k x` is the text of
-- `x` with `k` decimals.
pub mod Order
pub mod Tests
use Prim.Native.String.{◌++◌ as ◌<>◌}
use swing_x.Prelude.{
  ℕ, ◌^◌, Bool, true, false, not, ◌&&◌, List, [], ◌∷◌, map, String, if◌then◌else◌,
}
use swing_x.Prelude.TextOrder.{before}
use swing_x.Float.{Float}
use swing_x.Core.Layer.{as_str as layer_text}
use swing_x.Core.Market.{Side}
use swing_x.Core.Horizon.{as_str as horizon_text}
use swing_x.Core.Genome.{CmpOp, Predicate, Genome}
use swing_x.Core.Describe.{describe_risk}
use swing_x.Store.Pit.{order_by}

abbrev pub signature_threshold_decimals : ℕ
signature_threshold_decimals = 4

abbrev pub op_text : CmpOp → String
op_text CmpOp.gt = ">"
op_text CmpOp.lt = "<"
op_text CmpOp.gte = ">="
op_text CmpOp.lte = "<="

-- `side.sign() as i64`
abbrev pub side_text : Side → String
side_text Side.long = "1"
side_text Side.short = "-1"

-- `preds.join("&")`
unfoldable pub join : List String → String
join [] = ""
join (s ∷ []) = s
join (s ∷ t ∷ more) = s <> ("&" <> join (t ∷ more))

module _ {F : Type 0} ⦃f : Float F⦄ (format : ℕ → F → String) where
  open f use {of_ℕ, le, mul, div, is_finite, round}

  unfoldable pub round_threshold : F → F
  round_threshold t =
      let scale = of_ℕ (10 ^ signature_threshold_decimals) in
      let r = div (round (mul t scale)) scale in
      if not (is_finite t) then of_ℕ 0 else if le r (of_ℕ 0) && le (of_ℕ 0) r then of_ℕ 0 else r

  abbrev pub token : Predicate F → String
  token p =
      layer_text p.layer
      <> ("|"
          <> (p.feature_key
              <> ("|"
                  <> (op_text p.op
                      <> ("|"
                          <> format signature_threshold_decimals (round_threshold p.threshold))))))

  unfoldable pub genome_signature : Genome F → String
  genome_signature g =
      let preds = order_by before (map token g.predicates) in
      side_text g.side
      <> ("::"
          <> (horizon_text g.horizon
              <> ("::[" <> (join preds <> ("]::" <> describe_risk format g.risk)))))

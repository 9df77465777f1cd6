-- ===== src/Core/Describe.antt =====
-- The texts of a risk geometry, crates/se-core/src/risk.rs. `format k x` is the text of `x` with `k` decimals.
use Prim.Native.Char.{code}
use Prim.Native.String.{◌++◌ as ◌<>◌}
use swing_x.Prelude.{ℕ, ◌&&◌, Option, none, some, String, ◌==◌, str_eq, if◌then◌else◌}
use swing_x.Core.Risk.{StopSpec, TargetSpec, RiskModel}

-- `trim_end_matches` for a character, given by its number.
unfoldable pub trim_end : ℕ → String → String
trim_end c String.[] = ""
trim_end c (String.◌∷◌ d s) =
    let rest = trim_end c s in if code d == c && str_eq rest "" then "" else String.◌∷◌ d rest

module _ {F : Type 0} (format : ℕ → F → String) where
  unfoldable pub fmt_num : F → String
  fmt_num v = trim_end b'.' (trim_end b'0' (format 2 v))

  abbrev pub describe_stop : StopSpec F → String
  describe_stop (StopSpec.atr mult) = fmt_num mult <> "ATR"
  describe_stop (StopSpec.fixed dollars) = "$" <> fmt_num dollars
  describe_stop (StopSpec.percent pct) = fmt_num pct <> "%"

  abbrev pub describe_target : TargetSpec F → String
  describe_target (TargetSpec.atr mult) = fmt_num mult <> "ATR"
  describe_target (TargetSpec.fixed dollars) = "$" <> fmt_num dollars
  describe_target (TargetSpec.percent pct) = fmt_num pct <> "%"
  describe_target (TargetSpec.r_multiple r) = fmt_num r <> "R"

  abbrev pub describe_second : Option (TargetSpec F) → String
  describe_second none = ""
  describe_second (some t2) = "/" <> describe_target t2

  unfoldable pub describe_risk : RiskModel F → String
  describe_risk m =
      "stop="
      <> (describe_stop m.stop
          <> (" target=" <> (describe_target m.target1 <> describe_second m.target2)))

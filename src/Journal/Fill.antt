-- ===== src/Journal/Fill.antt =====
-- Where a paper trade of crates/se-journal is filled, and how it is resolved.
use swing_x.Prelude.{
  ℕ, ◌+◌, ◌≤◌, ◌<◌, ◌≡◌, true, false, Option, none, some, List, take, get_elem?, All, if◌then◌else◌,
}
use swing_x.Float.{Float, ◌≺◌}
use swing_x.Core.Market.{Bar}
use swing_x.Core.Horizon.{HorizonProfile}
use swing_x.Core.Risk.{from_profile}
use swing_x.Labeler.{LabelEvent}
use swing_x.Labeler.Touch.{IsFirstTouch}
use swing_x.Signals.{Signal}
use swing_x.Journal.{Resolution, Leg, PaperTrade, adverse_price, cost_in_r, raw_exit}

module _ {F : Type 0} where
  -- The first bar at or after a time.
  abbrev pub IsFirstFrom : ℕ → List (Bar F) → ℕ → Type 0
  IsFirstFrom ts bars i =
      ((b : Bar F) × (get_elem? bars i ≡ some b) × (ts ≤ b.ts)) × All (λ b. b.ts < ts) (take i bars)

module _ {F : Type 0} ⦃f : Float F⦄ where
  open f use {of_ℕ, lt, le, sub}

  -- Still open, or resolved at the first touch of a barrier of the profile, net of the costs.
  pub data IsResolution (profile : HorizonProfile F) (bars : List (Bar F)) (idx : ℕ)
      (pt : PaperTrade F) : Type 0 where
    open_trade :
        pt.resolved ≡ false
        → pt.trade.exit_ts ≡ none
        → pt.trade.exit_px ≡ none
        → pt.trade.pnl_r ≡ none
        → IsResolution profile bars idx pt
    closed_trade :
        (atr : F) (event : LabelEvent F)
        → pt.resolved ≡ true
        → of_ℕ 0 ≺ atr
        → IsFirstTouch profile.max_hold_bars bars idx pt.trade.side atr (from_profile profile) event
        → pt.trade.exit_ts ≡ some event.t1
        → pt.trade.exit_px
          ≡ some (
              adverse_price (raw_exit bars event event.outcome) pt.trade.side Leg.exit profile.cost)
        → pt.trade.pnl_r ≡ some (sub event.ret_r (cost_in_r pt.trade.fill_px profile (some atr)))
        → IsResolution profile bars idx pt

  -- The bar of the decision, the bar after it, at which the trade is filled, and the resolution.
  pub record IsFill (signal : Signal F) (profile : HorizonProfile F) (bars : List (Bar F))
      (pt : PaperTrade F) : Type 0 where
    pub idx : ℕ
    pub bar : Bar F
    pub decision : IsFirstFrom signal.decision_ts bars idx
    pub at_next : get_elem? bars (idx + 1) ≡ some bar
    pub fill_px : pt.trade.fill_px ≡ adverse_price bar.open_px signal.side Leg.entry profile.cost
    pub fill_ts : (pt.fill_ts ≡ bar.ts) × (pt.trade.fill_ts ≡ bar.ts)
    pub owner : (pt.trade.ticker ≡ signal.ticker) × (pt.trade.side ≡ signal.side)
    pub resolution : IsResolution profile bars (idx + 1) pt

  -- What the resolution says of a trade that carries it.
  abbrev carried : HorizonProfile F → F → Option F → Resolution F → PaperTrade F → PaperTrade F
  carried profile fill_px atr r pt = record {
    trade = record pt.trade {
      exit_ts = r.exit_ts;
      exit_px = r.exit_px;
      pnl_r = if r.resolved then some (sub r.pnl_r_gross (cost_in_r fill_px profile atr)) else none;
    };
    fill_ts = pt.fill_ts;
    resolved = r.resolved;
  }

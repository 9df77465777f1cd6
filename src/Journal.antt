-- ===== src/Journal.antt =====
-- crates/se-journal: the fills of fills.rs, and the resolution of a paper trade and the statistics of closed
-- ones of lib.rs. The table of daily bars is a list.
pub mod Fill
pub mod Stats
pub mod Tests
use swing_x.Prelude.{
  ℕ, ◌+◌, ◌-◌, min, max, Bool, true, false, not, ◌&&◌, Option, none, some, List, [], ◌∷◌, ◌++◌,
  String, leb, ltb, if◌then◌else◌, length, take, drop, get_elem?, find, keep_if, is_empty, map,
  str_eq, ◌==◌, zero, suc,
}
use swing_x.Prelude.Results.{Result, ok, err}
use swing_x.Float.{Float}
use swing_x.Core.Market.{Bar, Side, true_range}
use swing_x.Core.Horizon.{HorizonProfile, CostModel, round_trip_frac}
use swing_x.Labeler.{Outcome, LabelEvent, LabelError, label_one}
use swing_x.Monitor.Stats.{sum, sort}
use swing_x.Signals.{Signal}

pub data Leg : Type 0 where
  entry : Leg
  exit : Leg

pub data TradeMode : Type 0 where
  paper : TradeMode
  live : TradeMode

pub record Trade (F : Type 0) : Type 0 where
  pub id : ℕ
  pub signal_id : Option ℕ
  pub strategy_id : Option ℕ
  pub ticker : String
  pub side : Side
  pub mode : TradeMode
  pub entry_ts : ℕ
  pub fill_px : F
  pub fill_ts : ℕ
  pub exit_ts : Option ℕ
  pub exit_px : Option F
  pub pnl_r : Option F
  pub cost_frac : F

pub record PaperTrade (F : Type 0) : Type 0 where
  pub trade : Trade F
  pub fill_ts : ℕ
  pub resolved : Bool

-- The time and price of the exit, the gross return, and whether there is one.
pub record Resolution (F : Type 0) : Type 0 where
  pub exit_ts : Option ℕ
  pub exit_px : Option F
  pub pnl_r_gross : F
  pub resolved : Bool

pub record RealizedStats (F : Type 0) : Type 0 where
  pub strategy_id : ℕ
  pub n : ℕ
  pub expectancy_r : F
  pub profit_factor : F
  pub cvar5 : F

abbrev pub one_later : Option ℕ → Option ℕ
one_later none = none
one_later (some i) = some (suc i)

module _ {F : Type 0} where
  -- `iter().position(|b| b.ts >= ts)`
  unfoldable pub position_from : ℕ → List (Bar F) → Option ℕ
  position_from ts [] = none
  position_from ts (b ∷ bs) =
      let rest = position_from ts bs in if leb ts b.ts then some 0 else one_later rest

  insert_bar : Bar F → List (Bar F) → List (Bar F)
  insert_bar b [] = b ∷ []
  insert_bar b (c ∷ cs) =
      let rest = insert_bar b cs in if leb b.ts c.ts then b ∷ c ∷ cs else c ∷ rest

  unfoldable pub by_time : List (Bar F) → List (Bar F)
  unfolding insert_bar
  by_time [] = []
  by_time (b ∷ bs) = insert_bar b (by_time bs)

  -- The bars of the warm-up, up to the decision, and those that resolve the trade.
  unfoldable pub load_forward_bars : List (Bar F) → String → ℕ → HorizonProfile F → List (Bar F)
  load_forward_bars table ticker decision_ts profile =
      let mine = by_time (keep_if (λ b. str_eq b.ticker ticker) table) in
      let past = keep_if (λ b. leb b.ts decision_ts) mine in
      let future = keep_if (λ b. ltb decision_ts b.ts) mine in
      drop (length past - (profile.atr_lookback + 5)) past
      ++ take (profile.max_hold_bars + 5) future

module _ {F : Type 0} ⦃f : Float F⦄ where
  open f use {of_ℕ, decimal, infinity, lt, le, add, sub, mul, div, abs, ceil_usize}

  abbrev pub worsen : Side → Leg → F → F
  worsen Side.long Leg.entry half = add (of_ℕ 1) half
  worsen Side.long Leg.exit half = sub (of_ℕ 1) half
  worsen Side.short Leg.entry half = sub (of_ℕ 1) half
  worsen Side.short Leg.exit half = add (of_ℕ 1) half

  unfoldable pub adverse_price : F → Side → Leg → CostModel F → F
  adverse_price raw side leg cost = mul raw (worsen side leg (div (round_trip_frac cost) (of_ℕ 2)))

  unfoldable pub cost_in_r : F → HorizonProfile F → Option F → F
  cost_in_r fill_px profile atr =
      let r_price = mul profile.stop_atr_mult (elim atr [ none ↦ of_ℕ 0 | some a ↦ a ]) in
      if le r_price (of_ℕ 0)
      then of_ℕ 0
      else div (mul (round_trip_frac profile.cost) fill_px) r_price

  -- The true ranges of the windows of two bars.
  unfoldable pub true_ranges : List (Bar F) → List F
  true_ranges [] = []
  true_ranges (b ∷ []) = []
  true_ranges (b ∷ c ∷ bs) = true_range c b.close ∷ true_ranges (c ∷ bs)

  unfoldable pub se_features_atr : List (Bar F) → ℕ → Option F
  se_features_atr bars lookback =
      let trs = true_ranges bars in
      if leb lookback 0
      then none
      else if leb (length bars) lookback
      then none
      else some (div (sum (drop (length trs - lookback) trs)) (of_ℕ lookback))

  abbrev pub close_at : List (Bar F) → ℕ → F → F
  close_at bars t1 default = elim (find (λ b. b.ts == t1) bars) [
    | none ↦ default
    | some b ↦ b.close
  ]

  abbrev pub raw_exit : List (Bar F) → LabelEvent F → Outcome → F
  raw_exit bars ev Outcome.target = ev.target_px
  raw_exit bars ev Outcome.stop = ev.stop_px
  raw_exit bars ev Outcome.time = close_at bars ev.t1 ev.entry_px

  abbrev pub unresolved : Resolution F
  unresolved = record { exit_ts = none; exit_px = none; pnl_r_gross = of_ℕ 0; resolved = false }

  abbrev pub settle_label :
      HorizonProfile F → List (Bar F) → Side → Result LabelError (LabelEvent F) → Resolution F
  settle_label profile bars side (err why) = unresolved
  settle_label profile bars side (ok ev) = record {
    exit_ts = some ev.t1;
    exit_px = some (adverse_price (raw_exit bars ev ev.outcome) side Leg.exit profile.cost);
    pnl_r_gross = ev.ret_r;
    resolved = true;
  }

  abbrev pub resolve : HorizonProfile F → List (Bar F) → ℕ → Side → Option F → Resolution F
  resolve profile bars fill_idx side none = unresolved
  resolve profile bars fill_idx side (some atr) =
      if lt (of_ℕ 0) atr
      then settle_label profile bars side (label_one profile bars fill_idx side atr)
      else unresolved

  -- The trade of a signal that is filled at a bar.
  abbrev pub fill_at : ℕ → Signal F → HorizonProfile F → List (Bar F) → ℕ → Bar F → PaperTrade F
  fill_at id signal profile bars fill_idx bar =
      let side = signal.side in
      let fill_px = adverse_price bar.open_px side Leg.entry profile.cost in
      let atr = se_features_atr (take (fill_idx + 1) bars) profile.atr_lookback in
      let r = resolve profile bars fill_idx side atr in
      record {
        trade = record {
          id = id;
          signal_id = some signal.id;
          strategy_id = some signal.strategy_id;
          ticker = signal.ticker;
          side = side;
          mode = TradeMode.paper;
          entry_ts = signal.decision_ts;
          fill_px = fill_px;
          fill_ts = bar.ts;
          exit_ts = r.exit_ts;
          exit_px = r.exit_px;
          pnl_r =
              if r.resolved then some (sub r.pnl_r_gross (cost_in_r fill_px profile atr)) else none;
          cost_frac = round_trip_frac profile.cost;
        };
        fill_ts = bar.ts;
        resolved = r.resolved;
      }

  -- An index out of range, at which the source panics, gives no trade either: the test before excludes it.
  abbrev pub fill_next :
      ℕ → Signal F → HorizonProfile F → List (Bar F) → Option ℕ → Option (PaperTrade F)
  fill_next id signal profile bars none = none
  fill_next id signal profile bars (some entry_idx) =
      if leb (length bars) (entry_idx + 1) then none else elim (get_elem? bars (entry_idx + 1)) [
        | none ↦ none
        | some bar ↦ some (fill_at id signal profile bars (entry_idx + 1) bar)
      ]

  unfoldable pub open_and_resolve :
      ℕ → List (Bar F) → Signal F → HorizonProfile F → Option (PaperTrade F)
  open_and_resolve id table signal profile =
      let bars = load_forward_bars table signal.ticker signal.decision_ts profile in
      fill_next id signal profile bars (position_from signal.decision_ts bars)

  unfoldable pub compute_stats : ℕ → List F → RealizedStats F
  compute_stats strategy_id pnls =
      let n = length pnls in
      let wins = sum (keep_if (λ x. lt (of_ℕ 0) x) pnls) in
      let losses = sum (map abs (keep_if (λ x. lt x (of_ℕ 0)) pnls)) in
      let tail = min (max (ceil_usize (mul (of_ℕ n) (decimal 5 2))) 1) n in
      if leb n 0
      then record {
        strategy_id = strategy_id;
        n = 0;
        expectancy_r = of_ℕ 0;
        profit_factor = of_ℕ 0;
        cvar5 = of_ℕ 0;
      }
      else record {
        strategy_id = strategy_id;
        n = n;
        expectancy_r = div (sum pnls) (of_ℕ n);
        profit_factor =
            if lt (of_ℕ 0) losses
            then div wins losses
            else if lt (of_ℕ 0) wins
            then infinity
            else of_ℕ 0;
        cvar5 = div (sum (take tail (sort pnls))) (of_ℕ tail);
      }

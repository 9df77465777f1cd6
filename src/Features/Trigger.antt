-- ===== src/Features/Trigger.antt =====
-- The trigger features, crates/se-features/src/layer3_trigger.rs.
use swing_x.Prelude.{
  ℕ, suc, ◌+◌, ◌-◌, ◌/◌, Bool, true, false, ◌&&◌, ◌||◌, Option, none, some, List, [], ◌∷◌, ◌++◌,
  map, String, str_eq, if◌then◌else◌, length, take, drop, leb, ltb, all,
}
use swing_x.Float.{Float, fmax, fmin}
use swing_x.Core.Layer.{Layer}
use swing_x.Core.Market.{Bar, range}
use swing_x.Core.Ticker.{all_tickers, benchmark}
use swing_x.Store.{Feature}
use swing_x.Store.Pit.{Pit, bars, last?}
use swing_x.Features.{Hooks, push, with_some, flag}
use swing_x.Features.Indicators.{
  atr, ema, obv, roc, rsi, rsi_slope, slope_sign, sma, sign_or_zero, windows_2, minus?,
}
use swing_x.Features.RegimeLayer.{both}

abbrev pub momentum_n : ℕ
momentum_n = 20

abbrev pub trigger_lookback : ℕ
trigger_lookback = 80

abbrev pub breadth_ma : ℕ
breadth_ma = 50

module _ {F : Type 0} ⦃f : Float F⦄ where
  open f use {of_ℕ, max_value, lt, le, add, sub, div, neg}

  unfoldable pub rs_vs_bench : List F → List F → ℕ → Option F
  rs_vs_bench ticker_closes bench_closes n = minus? (roc ticker_closes n) (roc bench_closes n)

  abbrev pub stack_align : Option F → Option F → Option F → Option F
  stack_align (some ef) (some em) (some es) =
      some (div (add (sign_or_zero (sub ef em)) (sign_or_zero (sub em es))) (of_ℕ 2))
  stack_align _ _ _ = none

  unfoldable pub ema_stack_align : List F → ℕ → ℕ → ℕ → Option F
  ema_stack_align closes fast mid slow =
      stack_align (ema closes fast) (ema closes mid) (ema closes slow)

  abbrev pub narrowest : List F → Option F → Option F
  narrowest slice none = none
  narrowest slice (some last) = some (flag (all (λ r. le last r) slice))

  -- Of a window of at least one range.
  unfoldable pub nr7 : List F → ℕ → Option F
  nr7 ranges window =
      let slice = drop (length ranges - window) ranges in
      if ltb (length ranges) window then none else narrowest slice (last? slice)

  abbrev pub max_from : F → List F → F
  max_from m [] = m
  max_from m (x ∷ xs) = max_from (fmax m x) xs

  abbrev pub min_from : F → List F → F
  min_from m [] = m
  min_from m (x ∷ xs) = min_from (fmin m x) xs

  abbrev pub max_in : List F → F
  max_in xs = max_from (neg max_value) xs

  abbrev pub min_in : List F → F
  min_in xs = min_from max_value xs

  unfoldable pub momentum_divergence : List F → ℕ → F
  momentum_divergence closes window =
      let px = drop (length closes - window) closes in
      let mom = of_ℕ 0 ∷ map (λ (a, b). sub b a) (windows_2 px) in
      let mid = length px / 2 in
      let price_hh = lt (max_in (take mid px)) (max_in (drop mid px)) in
      let mom_lh = lt (max_in (drop mid mom)) (max_in (take mid mom)) in
      let price_ll = lt (min_in (drop mid px)) (min_in (take mid px)) in
      let mom_hl = lt (min_in (take mid mom)) (min_in (drop mid mom)) in
      if ltb window 2 || ltb (length closes) window
      then of_ℕ 0
      else if leb mid 0 || leb (length px) mid
      then of_ℕ 0
      else if price_hh && mom_lh
      then neg (of_ℕ 1)
      else if price_ll && mom_hl
      then of_ℕ 1
      else of_ℕ 0

  module _ (hooks : Hooks F) (pit : Pit F) where
    abbrev pub emit : String → F → List (Feature F)
    emit key value = push Layer.trigger pit.decision_ts key "derived" value

    abbrev pub closes_of : List (Bar F) → List F
    closes_of bs = map (λ (b : Bar F). b.close) bs

    abbrev pub relative_strength : List F → List (Feature F)
    relative_strength closes =
        if str_eq pit.ticker benchmark
        then emit "trigger.rs_vs_spy" (of_ℕ 0)
        else with_some
            (rs_vs_bench closes (closes_of (pit.bars_for benchmark "daily" trigger_lookback))
              momentum_n)
            (emit "trigger.rs_vs_spy")

    abbrev pub contraction : List (Bar F) → List (Feature F)
    contraction bs =
        with_some (both (atr bs 5) (atr bs 20))
          (λ (s, l). if lt (of_ℕ 0) l then emit "trigger.atr_contraction" (div s l) else [])

    abbrev pub atr_percent : List (Bar F) → List F → List (Feature F)
    atr_percent bs closes =
        with_some (both (atr bs 14) (last? closes))
          (λ (a, c). if lt (of_ℕ 0) c then emit "trigger.atr_pct" (div a c) else [])

    abbrev pub obv_trend : List (Bar F) → List (Feature F)
    obv_trend bs =
        let series = obv bs in
        if ltb (length series) 20
        then []
        else emit "trigger.obv_trend" (slope_sign (drop (length series - 20) series))

    -- Whether the last close is above the average, where there is one.
    abbrev pub above_average : List F → Option Bool
    above_average closes = elim (both (sma closes breadth_ma) (last? closes)) [
      | none ↦ none
      | some (ma, last) ↦ some (lt ma last)
    ]

    -- How many have the average, and how many are above it.
    abbrev pub count_breadth : Option Bool → ℕ × ℕ → ℕ × ℕ
    count_breadth none (have, above) = (have, above)
    count_breadth (some true) (have, above) = (suc have, suc above)
    count_breadth (some false) (have, above) = (suc have, above)

    unfoldable pub breadth : List (Bar F) → List String → ℕ × ℕ
    breadth bs [] = (0, 0)
    breadth bs (t ∷ ts) =
        let tb = if str_eq t pit.ticker then bs else pit.bars_for t "daily" (breadth_ma + 2) in
        count_breadth (above_average (closes_of tb)) (breadth bs ts)

    abbrev pub breadth_thrust : List (Bar F) → List (Feature F)
    breadth_thrust bs =
        let (have, above) = breadth bs all_tickers in
        if leb have 0 then [] else emit "trigger.breadth_thrust" (div (of_ℕ above) (of_ℕ have))

    abbrev pub from_bars : List (Bar F) → List (Feature F)
    from_bars bs =
        let closes = closes_of bs in
        relative_strength closes
        ++ (with_some (roc closes momentum_n) (emit "trigger.momentum_roc")
            ++ (emit "trigger.momentum_divergence" (momentum_divergence closes 10)
                ++ (contraction bs
                    ++ (with_some (nr7 (map range bs) 7) (emit "trigger.nr7")
                        ++ (with_some (rsi closes 14) (emit "trigger.rsi14")
                            ++ (with_some (rsi_slope closes 14 5) (emit "trigger.rsi_slope")
                                ++ (with_some (ema_stack_align closes 9 21 50)
                                      (emit "trigger.ema_stack_align")
                                    ++ (atr_percent bs closes
                                        ++ (obv_trend bs ++ breadth_thrust bs)))))))))

    unfoldable pub compute_trigger : List (Feature F)
    compute_trigger =
        let bs = bars pit "daily" trigger_lookback in
        if ltb (length bs) 2
        then []
        else from_bars bs
          ++ with_some (hooks.order_flow_imbalance pit.ticker pit.decision_ts) (
              push Layer.trigger pit.decision_ts "trigger.order_flow_imbalance"
                "proprietary:order_flow")

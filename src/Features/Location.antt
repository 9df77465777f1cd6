-- ===== src/Features/Location.antt =====
-- The location features, crates/se-features/src/layer2_location.rs.
use swing_x.Prelude.{
  ℕ, zero, suc, ◌+◌, ◌-◌, ◌*◌, Bool, true, false, ◌&&◌, Option, none, some, List, [], ◌∷◌, ◌++◌,
  map, String, if◌then◌else◌, length, take, drop, leb, ltb, is_empty, get_elem?,
}
use swing_x.Float.{Float, clamp, fmax, fmin}
use swing_x.Core.Layer.{Layer}
use swing_x.Core.Market.{Bar, typical_price}
use swing_x.Store.{Feature}
use swing_x.Store.Pit.{Pit, bars, last?}
use swing_x.Features.{push, with_some}
use swing_x.Features.Indicators.{atr, sma, last_n}

abbrev pub location_lookback : ℕ
location_lookback = 260

abbrev pub atr_period : ℕ
atr_period = 14

abbrev pub range_window : ℕ
range_window = 20

abbrev pub pivot_k : ℕ
pivot_k = 3

abbrev pub week_bars : ℕ
week_bars = 5

abbrev pub rolling_window : ℕ
rolling_window = 20

module _ {F : Type 0} ⦃f : Float F⦄ where
  open f use {of_ℕ, max_value, lt, le, add, sub, mul, div, neg, is_finite}

  unfoldable pub atr_dist : F → F → F → Option F
  atr_dist close level atr = if le atr (of_ℕ 0) then none else some (div (sub close level) atr)

  abbrev pub at_bar : List (Bar F) → ℕ → (Bar F → Bool) → Bool
  at_bar bs i test = elim (get_elem? bs i) [ none ↦ false | some b ↦ test b ]

  -- The bars so far on each side, out to `k`, pass the test; they are in range where this is called.
  abbrev pub both_sides : List (Bar F) → ℕ → ℕ → (Bar F → Bool) → Bool
  both_sides bs c zero test = true
  both_sides bs c (suc d) test =
      at_bar bs (c - suc d) test && (at_bar bs (c + suc d) test && both_sides bs c d test)

  -- From the newest candidate down: number `k + left - 1`, then the one before it.
  unfoldable pub scan_pivots : (Bar F → F) → (F → F → Bool) → List (Bar F) → ℕ → ℕ → Option F
  scan_pivots level beats bs k zero = none
  scan_pivots level beats bs k (suc left) =
      let rest = scan_pivots level beats bs k left in
      elim (get_elem? bs (k + left)) [
        | none ↦ none
        | some b ↦
            if both_sides bs (k + left) k (λ o. beats (level b) (level o))
            then some (level b)
            else rest
      ]

  unfoldable pub last_swing_high : List (Bar F) → ℕ → Option F
  unfolding scan_pivots
  last_swing_high bs k =
      if ltb (length bs) (2 * k + 1)
      then none
      else scan_pivots (λ (b : Bar F). b.high) (λ h o. lt o h) bs k (length bs - 2 * k)

  unfoldable pub last_swing_low : List (Bar F) → ℕ → Option F
  unfolding scan_pivots
  last_swing_low bs k =
      if ltb (length bs) (2 * k + 1)
      then none
      else scan_pivots (λ (b : Bar F). b.low) (λ l o. lt l o) bs k (length bs - 2 * k)

  -- The sums of price times volume and of volume.
  unfoldable pub vwap_sums : F → F → List (Bar F) → F × F
  vwap_sums pv vol [] = (pv, vol)
  vwap_sums pv vol (b ∷ bs) =
      vwap_sums (add pv (mul (typical_price b) b.volume)) (add vol b.volume) bs

  unfoldable pub anchored_vwap : List (Bar F) → Option F
  unfolding vwap_sums
  anchored_vwap bs =
      let (pv, vol) = vwap_sums (of_ℕ 0) (of_ℕ 0) bs in
      if le vol (of_ℕ 0) then none else some (div pv vol)

  -- `fold(f64::MIN, |m, b| m.max(b.high))` and its mirror.
  abbrev pub highest_from : F → List (Bar F) → F
  highest_from m [] = m
  highest_from m (b ∷ bs) = highest_from (fmax m b.high) bs

  abbrev pub lowest_from : F → List (Bar F) → F
  lowest_from m [] = m
  lowest_from m (b ∷ bs) = lowest_from (fmin m b.low) bs

  abbrev pub highest : List (Bar F) → F
  highest bs = highest_from (neg max_value) bs

  abbrev pub lowest : List (Bar F) → F
  lowest bs = lowest_from max_value bs

  unfoldable pub rolling_high_low : List (Bar F) → ℕ → Option (F × F)
  rolling_high_low bs window =
      let slice = last_n window bs in
      if is_empty bs
      then none
      else if is_finite (highest slice) && is_finite (lowest slice)
      then some (highest slice, lowest slice)
      else none

  unfoldable pub pct_range_position : List (Bar F) → F → ℕ → Option F
  pct_range_position bs close window =
      let hi = highest (last_n window bs) in
      let lo = lowest (last_n window bs) in
      if is_empty bs
      then none
      else if le hi lo
      then none
      else some (clamp (div (sub close lo) (sub hi lo)) (of_ℕ 0) (of_ℕ 1))

  module _ (pit : Pit F) where
    abbrev pub emit : String → F → List (Feature F)
    emit key value = push Layer.location pit.decision_ts key "derived" value

    -- The distance to a level, if there is one.
    abbrev pub emit_dist : String → F → F → Option F → List (Feature F)
    emit_dist key close a level = with_some level (λ l. with_some (atr_dist close l a) (emit key))

    abbrev pub prior_week : List (Bar F) → List (Bar F)
    prior_week bs = take week_bars (drop (length bs - 1 - week_bars) bs)

    -- The distances in units of the average true range.
    abbrev pub distances : List (Bar F) → F → F → List (Feature F)
    distances bs close a =
        let closes = map (λ (b : Bar F). b.close) bs in
        let prior = get_elem? bs (length bs - 2) in
        emit_dist "location.dist_50dma" close a (sma closes 50)
        ++ (emit_dist "location.dist_200dma" close a (sma closes 200)
            ++ (with_some prior (λ p.
                  emit_dist "location.dist_prior_dh" close a (some p.high)
                  ++ emit_dist "location.dist_prior_dl" close a (some p.low))
                ++ ((if leb (length bs) week_bars
                      then []
                      else emit_dist "location.dist_prior_wh" close a
                          (some (highest (prior_week bs)))
                        ++ emit_dist "location.dist_prior_wl" close a
                            (some (lowest (prior_week bs))))
                    ++ (emit_dist "location.swing_high_dist" close a (last_swing_high bs pivot_k)
                        ++ (emit_dist "location.swing_low_dist" close a (last_swing_low bs pivot_k)
                            ++ emit_dist "location.anchored_vwap_dist" close a
                                (anchored_vwap bs))))))

    abbrev pub rolling : List (Bar F) → F → F → List (Feature F)
    rolling bs close a = with_some (rolling_high_low bs rolling_window) (λ (hi, lo).
        emit_dist "location.dist_rolling_high" close a (some hi)
        ++ emit_dist "location.dist_rolling_low" close a (some lo))

    abbrev pub at_close : List (Bar F) → F → List (Feature F)
    at_close bs close =
        let atr_v = atr bs atr_period in
        with_some atr_v (distances bs close)
        ++ (with_some (pct_range_position bs close range_window)
              (emit "location.pct_range_position")
            ++ with_some atr_v (rolling bs close))

    unfoldable pub compute_location : List (Feature F)
    compute_location =
        let bs = bars pit "daily" location_lookback in
        if ltb (length bs) 2 then [] else with_some (last? bs) (λ last. at_close bs last.close)

-- ===== src/Features/RegimeLayer.antt =====
-- The regime features, crates/se-features/src/layer1_regime.rs.
use swing_x.Prelude.{
  ℕ, zero, suc, ◌+◌, ◌-◌, Option, none, some, List, [], ◌∷◌, ◌++◌, map, String, if◌then◌else◌,
  length, take, leb, ltb, keep_if, is_empty,
}
use swing_x.Float.{Float}
use swing_x.Core.Layer.{Layer}
use swing_x.Core.Market.{Bar}
use swing_x.Store.{Feature}
use swing_x.Store.Pit.{Pit, bars, head?, last?}
use swing_x.Features.{Hooks, push, with_some}
use swing_x.Features.Indicators.{adx, realized_vol, is_zero}

abbrev pub rv_lookback : ℕ
rv_lookback = 20

abbrev pub rv_pctl_window : ℕ
rv_pctl_window = 252

abbrev pub trend_window : ℕ
trend_window = 21

abbrev pub adx_period : ℕ
adx_period = 14

-- The prefixes that end at `end`, `end + 1` and so on, so many of them.
abbrev pub prefixes_from : {A : Type 0} → ℕ → ℕ → List A → List (List A)
prefixes_from zero end xs = []
prefixes_from (suc n) end xs = take end xs ∷ prefixes_from n (end + 1) xs

abbrev pub zip : {A B : Type 0} → List A → List B → List (A × B)
zip [] ys = []
zip (x ∷ xs) [] = []
zip (x ∷ xs) (y ∷ ys) = (x, y) ∷ zip xs ys

abbrev pub both : {A B : Type 0} → Option A → Option B → Option (A × B)
both (some a) (some b) = some (a, b)
both _ _ = none

module _ {F : Type 0} ⦃f : Float F⦄ where
  open f use {of_ℕ, lt, le, sub, mul, div, neg}

  unfoldable pub percentile_of : List F → F → Option F
  percentile_of hist x =
      if is_empty hist
      then none
      else some (div (of_ℕ (length (keep_if (λ v. le v x) hist))) (of_ℕ (length hist)))

  abbrev pub change_of : Option F → Option F → Option F
  change_of (some first) (some last) =
      if is_zero first then none else some (sub (div last first) (of_ℕ 1))
  change_of _ _ = none

  unfoldable pub pct_change : List F → Option F
  pct_change series =
      if ltb (length series) 2 then none else change_of (head? series) (last? series)

  module _ (ln : F → F) (hooks : Hooks F) (pit : Pit F) where
    abbrev pub emit : String → String → F → List (Feature F)
    emit key source value = push Layer.regime pit.decision_ts key source value

    -- A ratio, where its denominator is positive.
    abbrev pub emit_ratio : String → Option F → Option F → List (Feature F)
    emit_ratio key a b =
        with_some (both a b) (λ (x, y). if lt (of_ℕ 0) y then emit key "derived" (div x y) else [])

    abbrev pub term_structure : List (Feature F)
    term_structure =
        emit_ratio "regime.vix9d_vix" (pit.macro_value_as_of "vix9d") (pit.macro_value_as_of "vix")
        ++ (emit_ratio "regime.vix_vix3m" (pit.macro_value_as_of "vix")
              (pit.macro_value_as_of "vix3m")
            ++ with_some (pit.macro_value_as_of "vvix") (emit "regime.vvix" "fmp"))

    abbrev pub volatility : List (Bar F) → List (Feature F)
    volatility bs =
        let closes = map (λ (b : Bar F). b.close) bs in
        let rv20 = realized_vol ln closes rv_lookback in
        let rv_hist =
          map (λ w. realized_vol ln w rv_lookback)
            (prefixes_from (length closes - rv_lookback) (rv_lookback + 1) closes) in
        if leb (length bs) rv_lookback
        then []
        else emit "regime.rv20" "derived" rv20
          ++ (with_some (percentile_of rv_hist rv20) (emit "regime.rv_percentile" "derived")
              ++ (with_some (adx bs adx_period) (emit "regime.adx" "derived")
                  ++ with_some (pit.macro_value_as_of "vix")
                      (λ v. emit "regime.vrp" "derived" (sub v (mul rv20 (of_ℕ 100))))))

    abbrev pub credit : List (Feature F)
    credit =
        with_some (pit.macro_value_as_of "hy_oas") (emit "regime.hy_oas" "fred")
        ++ (with_some (pit.macro_value_as_of "ig_oas") (emit "regime.ig_oas" "fred")
            ++ emit_ratio "regime.hy_ig_ratio" (pit.macro_value_as_of "hy_oas")
                (pit.macro_value_as_of "ig_oas"))

    abbrev pub liquidity : List (Feature F)
    liquidity =
        with_some
          (both (both (pit.macro_value_as_of "fed_balance_sheet") (pit.macro_value_as_of "tga"))
            (pit.macro_value_as_of "reverse_repo"))
          (λ ((w, t), r). emit "regime.net_liquidity" "derived" (sub (sub w t) r))

    abbrev pub values_of : String → List F
    values_of series = map (λ (t, v). v) (pit.macro_history series trend_window)

    abbrev pub copper_gold : List F
    copper_gold =
        map (λ (c, g). div c g)
          (keep_if (λ (c, g). lt (of_ℕ 0) g) (zip (values_of "copper") (values_of "gold")))

    abbrev pub cross_asset : List (Feature F)
    cross_asset =
        with_some (pct_change (values_of "dxy")) (emit "regime.dxy_trend" "derived")
        ++ (with_some (both (pit.macro_value_as_of "ust2y") (pit.macro_value_as_of "ust10y"))
              (λ (t2, t10). emit "regime.twos_tens" "derived" (sub t10 t2))
            ++ (with_some (pct_change copper_gold) (emit "regime.copper_gold" "derived")
                ++ with_some (pct_change (values_of "oil")) (emit "regime.oil_trend" "derived")))

    abbrev pub private_feeds : List (Feature F)
    private_feeds =
        with_some (hooks.gex pit.ticker pit.decision_ts) (λ snap.
          emit "regime.gex_net" "proprietary:gex" snap.net_gex
          ++ emit "regime.gex_sign" "proprietary:gex"
              (if le (of_ℕ 0) snap.net_gex then of_ℕ 1 else neg (of_ℕ 1)))
        ++ with_some (hooks.dix pit.ticker pit.decision_ts) (emit "regime.dix" "proprietary:dix")

    unfoldable pub compute_regime : List (Feature F)
    compute_regime =
        term_structure
        ++ (volatility (bars pit "daily" (rv_pctl_window + rv_lookback + 5))
            ++ (credit ++ (liquidity ++ (cross_asset ++ private_feeds))))

-- ===== src/Regime/Engine/Keyed.antt =====
-- The keys of the regime features, crates/se-features/src/layer1_regime.rs, in their order.
use swing_x.Prelude.{
  ℕ, ◌+◌, ◌-◌, ◌≡◌, refl, inr, Bool, false, Option, List, [], ◌∷◌, ◌++◌, map, String, length,
  if◌then◌else◌, leb, Distinct,
}
use swing_x.Float.{Float}
use swing_x.Core.Layer.{Layer}
use swing_x.Core.Market.{Bar}
use swing_x.Store.{Feature, from_feature, same_feature, repeats}
use swing_x.Store.Pit.{Pit, bars}
use swing_x.Features.{Hooks, with_some, feature_of}
use swing_x.Features.Indicators.{realized_vol, adx}
use swing_x.Features.RegimeLayer.{
  rv_lookback, rv_pctl_window, adx_period, prefixes_from, both, percentile_of, pct_change,
  values_of, copper_gold, emit, emit_ratio, term_structure, volatility, credit, liquidity,
  cross_asset, private_feeds, compute_regime,
}
use swing_x.Regime.Engine.Keys.{
  Within, Within-append, Within-with_some, Within-if, Within-unless, repeats-Within,
}

record Keyed {F : Type 0} (ks : List String) (fs : List (Feature F)) : Type 0 where
  within : Within ks fs

module _ {F : Type 0} where
  Keyed-append :
      {ks js : List String} {fs gs : List (Feature F)}
      → Keyed ks fs
      → Keyed js gs
      → Keyed (ks ++ js) (fs ++ gs)
  Keyed-append {ks} {js} {fs} {gs} h k = record {
    within = Within-append ks js fs gs h.within k.within;
  }

  Keyed-with_some :
      {A : Type 0} {ks : List String} (o : Option A) (g : A → List (Feature F))
      → ((x : A) → Keyed ks (g x))
      → Keyed ks (with_some o g)
  Keyed-with_some {A} {ks} o g h = record { within = Within-with_some ks o g (λ x. (h x).within) }

  Keyed-if :
      {ks : List String} (b : Bool) (fs : List (Feature F))
      → Keyed ks fs
      → Keyed ks (if b then fs else [])
  Keyed-if {ks} b fs h = record { within = Within-if ks b fs h.within }

  Keyed-unless :
      {ks : List String} (b : Bool) (fs : List (Feature F))
      → Keyed ks fs
      → Keyed ks (if b then [] else fs)
  Keyed-unless {ks} b fs h = record { within = Within-unless ks b fs h.within }

abbrev term_keys : List String
term_keys = "regime.vix9d_vix" ∷ "regime.vix_vix3m" ∷ "regime.vvix" ∷ []

abbrev volatility_keys : List String
volatility_keys = "regime.rv20" ∷ "regime.rv_percentile" ∷ "regime.adx" ∷ "regime.vrp" ∷ []

abbrev credit_keys : List String
credit_keys = "regime.hy_oas" ∷ "regime.ig_oas" ∷ "regime.hy_ig_ratio" ∷ []

abbrev cross_keys : List String
cross_keys =
    "regime.dxy_trend" ∷ "regime.twos_tens" ∷ "regime.copper_gold" ∷ "regime.oil_trend" ∷ []

abbrev private_keys : List String
private_keys = "regime.gex_net" ∷ "regime.gex_sign" ∷ "regime.dix" ∷ []

abbrev regime_keys : List String
regime_keys =
    term_keys
    ++ (volatility_keys
        ++ (credit_keys ++ ("regime.net_liquidity" ∷ [] ++ (cross_keys ++ private_keys))))

regime_keys-Distinct : Distinct regime_keys
regime_keys-Distinct = (
  refl,
  (
    refl,
    (
      refl,
      (
        refl,
        (
          refl,
          (
            refl,
            (
              refl,
              (
                refl,
                (refl, (refl, (refl, (refl, (refl, (refl, (refl, (refl, (refl, (refl, tt)))))))))),
              ),
            ),
          ),
        ),
      ),
    ),
  ),
)

module _ {F : Type 0} ⦃f : Float F⦄ (ln : F → F) (hooks : Hooks F) (pit : Pit F) where
  emit-Keyed : (key source : String) (v : F) → Keyed (key ∷ []) (emit ln hooks pit key source v)
  emit-Keyed key source v =
      let x = feature_of Layer.regime pit.decision_ts key source v in
      Keyed-if (f.is_finite v) (x ∷ []) (record { within = inr (x, [], refl, refl, refl) })

  emit_ratio-Keyed :
      (key : String) (a b : Option F) → Keyed (key ∷ []) (emit_ratio ln hooks pit key a b)
  emit_ratio-Keyed key a b =
      Keyed-with_some _ _
        (λ (x, y). Keyed-if (f.lt (f.of_ℕ 0) y) _ (emit-Keyed key "derived" (f.div x y)))

  term_structure-Keyed : Keyed term_keys (term_structure ln hooks pit)
  term_structure-Keyed =
      let m = pit.macro_value_as_of in
      Keyed-append (emit_ratio-Keyed "regime.vix9d_vix" (m "vix9d") (m "vix")) (
        Keyed-append (emit_ratio-Keyed "regime.vix_vix3m" (m "vix") (m "vix3m"))
          (Keyed-with_some (m "vvix") _ (λ v. emit-Keyed "regime.vvix" "fmp" v)))

  volatility-Keyed : (bs : List (Bar F)) → Keyed volatility_keys (volatility ln hooks pit bs)
  volatility-Keyed bs =
      let closes = map (λ (b : Bar F). b.close) bs in
      let rv20 = realized_vol ln closes rv_lookback in
      let rv_hist =
        map (λ w. realized_vol ln w rv_lookback)
          (prefixes_from (length closes - rv_lookback) (rv_lookback + 1) closes) in
      Keyed-unless (leb (length bs) rv_lookback) _ (
        Keyed-append (emit-Keyed "regime.rv20" "derived" rv20) (
          Keyed-append
            (Keyed-with_some (percentile_of rv_hist rv20) _
              (emit-Keyed "regime.rv_percentile" "derived"))
            (Keyed-append
              (Keyed-with_some (adx bs adx_period) _ (emit-Keyed "regime.adx" "derived"))
              (Keyed-with_some (pit.macro_value_as_of "vix") _
                (λ v. emit-Keyed "regime.vrp" "derived" (f.sub v (f.mul rv20 (f.of_ℕ 100))))))))

  credit-Keyed : Keyed credit_keys (credit ln hooks pit)
  credit-Keyed =
      let m = pit.macro_value_as_of in
      Keyed-append (Keyed-with_some (m "hy_oas") _ (emit-Keyed "regime.hy_oas" "fred")) (
        Keyed-append (Keyed-with_some (m "ig_oas") _ (emit-Keyed "regime.ig_oas" "fred"))
          (emit_ratio-Keyed "regime.hy_ig_ratio" (m "hy_oas") (m "ig_oas")))

  liquidity-Keyed : Keyed ("regime.net_liquidity" ∷ []) (liquidity ln hooks pit)
  liquidity-Keyed =
      let m = pit.macro_value_as_of in
      Keyed-with_some (both (both (m "fed_balance_sheet") (m "tga")) (m "reverse_repo")) _
        (λ ((w, t), r). emit-Keyed "regime.net_liquidity" "derived" (f.sub (f.sub w t) r))

  cross_asset-Keyed : Keyed cross_keys (cross_asset ln hooks pit)
  cross_asset-Keyed =
      let trend = λ (key : String) (vs : List F).
        Keyed-with_some (pct_change vs) _ (emit-Keyed key "derived") in
      Keyed-append (trend "regime.dxy_trend" (values_of ln hooks pit "dxy")) (
        Keyed-append
          (Keyed-with_some (both (pit.macro_value_as_of "ust2y") (pit.macro_value_as_of "ust10y")) _
            (λ (t2, t10). emit-Keyed "regime.twos_tens" "derived" (f.sub t10 t2)))
          (Keyed-append (trend "regime.copper_gold" (copper_gold ln hooks pit))
            (trend "regime.oil_trend" (values_of ln hooks pit "oil"))))

  private_feeds-Keyed : Keyed private_keys (private_feeds ln hooks pit)
  private_feeds-Keyed =
      Keyed-append
        (Keyed-with_some (hooks.gex pit.ticker pit.decision_ts) _ (λ snap.
          Keyed-append (emit-Keyed "regime.gex_net" "proprietary:gex" snap.net_gex) (
            emit-Keyed "regime.gex_sign" "proprietary:gex"
              (if f.le (f.of_ℕ 0) snap.net_gex then f.of_ℕ 1 else f.neg (f.of_ℕ 1)))))
        (Keyed-with_some (hooks.dix pit.ticker pit.decision_ts) _
          (emit-Keyed "regime.dix" "proprietary:dix"))

  -- Whatever is read, the writes of the regime features name no row twice.
  pub repeats-compute_regime :
      (ticker : String) (ts : ℕ)
      → repeats same_feature (map (from_feature ticker ts) (compute_regime ln hooks pit)) ≡ false
  unfolding compute_regime
  repeats-compute_regime ticker ts =
      let all_features = Keyed-append term_structure-Keyed (
        Keyed-append (volatility-Keyed (bars pit "daily" (rv_pctl_window + rv_lookback + 5))) (
          Keyed-append credit-Keyed
            (Keyed-append liquidity-Keyed (Keyed-append cross_asset-Keyed private_feeds-Keyed)))) in
      repeats-Within ticker ts regime_keys _ regime_keys-Distinct all_features.within

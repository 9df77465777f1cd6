-- ===== src/Search/Catalog.antt =====
-- `FeatureStat` and the lookups of `FeatureCatalog`, of crates/se-search/src/seed.rs.
use Prim.Native.Char.{code}
use mathlib.Core.Option
use swing_x.Prelude.{
  ℕ, ◌-◌, min, ◌<◌, ◌≡◌, Bool, true, false, Option, none, some, List, [], ◌∷◌, arith, String,
  str_eq, ◌==◌, if◌then◌else◌, length, get_elem?, get_elem?-lt, find, any, keep_if, is_empty, OneOf,
  OneOf-get_elem?, OneOf-find, str_eq_iff,
}
use swing_x.Float.{Float, clamp}
use swing_x.Core.Layer.{Layer, same_layer}

pub record FeatureStat (F : Type 0) : Type 0 where
  pub key : String
  pub layer : Layer
  -- Observed values, ascending.
  pub sorted_values : List F

pub record FeatureCatalog (F : Type 0) : Type 0 where
  pub stats : List (FeatureStat F)

-- The part of a key before its first dot, if it has one.
before_dot : String → Option String
before_dot String.[] = none
before_dot (String.◌∷◌ c s) =
    if code c == b'.' then some "" else Option.map (String.◌∷◌ c) (before_dot s)

abbrev layer_of_prefix : String → Layer
layer_of_prefix p =
    if str_eq p "tradeability"
    then Layer.tradeability
    else if str_eq p "regime"
    then Layer.regime
    else if str_eq p "location"
    then Layer.location
    else if str_eq p "trigger"
    then Layer.trigger
    else if str_eq p "event"
    then Layer.event
    else Layer.trigger

unfoldable pub layer_of_key : String → Layer
unfolding before_dot
layer_of_key key = elim (before_dot key) [ none ↦ Layer.trigger | some p ↦ layer_of_prefix p ]

-- `matches!(layer, Layer::Trigger | Layer::Location)`
abbrev pub is_actionable : Layer → Bool
is_actionable Layer.trigger = true
is_actionable Layer.location = true
is_actionable _ = false

module _ {F : Type 0} where
  abbrev pub stats_in_layer : FeatureCatalog F → Layer → List (FeatureStat F)
  stats_in_layer c layer = keep_if (λ s. same_layer s.layer layer) c.stats

  abbrev pub has_actionable_feature : FeatureCatalog F → Bool
  has_actionable_feature c = any (λ s. is_actionable s.layer) c.stats

  -- `stat_for_key`, and `stat_for` of genome_ops.rs.
  unfoldable pub stat_for_key : FeatureCatalog F → String → Option (FeatureStat F)
  stat_for_key c key = find (λ s. str_eq s.key key) c.stats

  pub stat_for_key-OneOf :
      (c : FeatureCatalog F) (key : String) {s : FeatureStat F}
      → stat_for_key c key ≡ some s
      → OneOf s c.stats × (s.key ≡ key)
  unfolding stat_for_key
  stat_for_key-OneOf c key {s} h =
      let (one, e) = OneOf-find _ c.stats h in (one, (str_eq_iff s.key key).0 e)

module _ {F : Type 0} ⦃f : Float F⦄ where
  open f use {of_ℕ, decimal, sub, mul, abs, lt, round_usize}

  unfoldable pub nearest_rank : ℕ → F → ℕ
  nearest_rank n q =
      min (round_usize (mul (clamp q (of_ℕ 0) (of_ℕ 1)) (sub (of_ℕ n) (of_ℕ 1)))) (n - 1)

  -- `sorted_values[idx]` is in range, as `quantile_total` shows.
  unfoldable pub quantile : FeatureStat F → F → Option F
  quantile s q =
      if is_empty s.sorted_values
      then none
      else get_elem? s.sorted_values (nearest_rank (length s.sorted_values) q)

  abbrev last_of : F → List F → F
  last_of v [] = v
  last_of v (w ∷ ws) = last_of w ws

  -- 2^-52
  abbrev epsilon : F
  epsilon = f.div (of_ℕ 1) (of_ℕ 4_503_599_627_370_496)

  spread_of : List F → Option F
  spread_of [] = none
  spread_of (v ∷ vs) = some (abs (sub (last_of v vs) v))

  unfoldable pub is_informative : FeatureStat F → Bool
  unfolding spread_of
  is_informative s = elim (spread_of s.sorted_values) [ none ↦ false | some d ↦ lt epsilon d ]

  -- A quantile is one of the observed values.
  pub quantile-OneOf :
      (s : FeatureStat F) (q : F) {t : F} → quantile s q ≡ some t → OneOf t s.sorted_values
  unfolding quantile
  quantile-OneOf s q h =
      OneOf-get_elem? s.sorted_values (nearest_rank (length s.sorted_values) q) (ground arith)

  nearest_rank-lt : (n : ℕ) (q : F) → 0 < n → nearest_rank n q < n
  unfolding nearest_rank
  nearest_rank-lt n q h = omega arith

  pub quantile_total :
      (s : FeatureStat F) (q : F) → 0 < length s.sorted_values → (t : F) × (quantile s q ≡ some t)
  unfolding quantile
  quantile_total s q h =
      let (t, e) = get_elem?-lt s.sorted_values _ (nearest_rank-lt (length s.sorted_values) q h) in
      (t, ground arith)

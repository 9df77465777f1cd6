-- ===== src/Monitor/Stats.antt =====
-- The statistics of crates/se-monitor/src/detectors.rs. `sort_by` is an insertion sort, which gives what
-- any stable sort gives on numbers.
use swing_x.Prelude.{
  ℕ, min, max, Option, none, some, List, [], ◌∷◌, ltb, if◌then◌else◌, length, take, is_empty,
}
use swing_x.Float.{Float, clamp}

-- The curve so far: its sum, its peak and its deepest point below the peak.
pub record Curve (F : Type 0) : Type 0 where
  pub cum : F
  pub peak : F
  pub max_dd : F

module _ {F : Type 0} ⦃f : Float F⦄ where
  open f use {of_ℕ, lt, add, sub, mul, div, sqrt, ceil_usize}

  unfoldable pub sum_from : F → List F → F
  sum_from acc [] = acc
  sum_from acc (x ∷ xs) = sum_from (add acc x) xs

  unfoldable pub sum : List F → F
  unfolding sum_from
  sum xs = sum_from (of_ℕ 0) xs

  unfoldable pub mean : List F → Option F
  mean xs = if is_empty xs then none else some (div (sum xs) (of_ℕ (length xs)))

  unfoldable pub squares : F → List F → List F
  squares m [] = []
  squares m (x ∷ xs) = mul (sub x m) (sub x m) ∷ squares m xs

  unfoldable pub mean_std : List F → Option (F × F × ℕ)
  unfolding squares
  mean_std xs =
      let n = length xs in
      let m = div (sum xs) (of_ℕ n) in
      let var = div (sum (squares m xs)) (sub (of_ℕ n) (of_ℕ 1)) in
      if ltb n 2 then none else some (m, sqrt var, n)

  unfoldable pub insert : F → List F → List F
  insert x [] = x ∷ []
  insert x (y ∷ ys) = let rest = insert x ys in if lt y x then y ∷ rest else x ∷ y ∷ ys

  unfoldable pub sort : List F → List F
  unfolding insert
  sort [] = []
  sort (x ∷ xs) = insert x (sort xs)

  unfoldable pub tail_length : ℕ → F → ℕ
  tail_length n alpha = min (max (ceil_usize (mul (of_ℕ n) (clamp alpha (of_ℕ 0) (of_ℕ 1)))) 1) n

  unfoldable pub cvar : List F → F → Option F
  cvar returns alpha =
      let sorted = sort returns in
      let k = tail_length (length sorted) alpha in
      if is_empty returns then none else some (div (sum (take k sorted)) (of_ℕ k))

  abbrev pub start : Curve F
  start = record { cum = of_ℕ 0; peak = of_ℕ 0; max_dd = of_ℕ 0 }

  unfoldable pub extend : Curve F → F → Curve F
  extend c r =
      let cum = add c.cum r in
      let peak = if lt c.peak cum then cum else c.peak in
      let dd = sub cum peak in
      record { cum = cum; peak = peak; max_dd = if lt dd c.max_dd then dd else c.max_dd }

  unfoldable pub draw : Curve F → List F → Curve F
  draw c [] = c
  draw c (r ∷ rs) = draw (extend c r) rs

  unfoldable pub max_drawdown : List F → Option F
  max_drawdown returns = if is_empty returns then none else some (draw start returns).max_dd

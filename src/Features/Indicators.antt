-- ===== src/Features/Indicators.antt =====
-- crates/se-features/src/indicators.rs. The natural logarithm is a parameter of what uses it.
use swing_x.Prelude.{
  ℕ, ◌+◌, ◌-◌, ◌*◌, Bool, ◌&&◌, ◌||◌, Option, none, some, List, [], ◌∷◌, map, leb, ltb,
  if◌then◌else◌, length, take, drop, keep_if, get_elem?, is_empty,
}
use swing_x.Float.{Float, fmax}
use swing_x.Core.Market.{Bar, true_range}
use swing_x.Monitor.Stats.{sum}
use swing_x.Store.Pit.{last?}

-- `windows(2)`
abbrev pub windows_2 : {A : Type 0} → List A → List (A × A)
windows_2 [] = []
windows_2 (a ∷ []) = []
windows_2 (a ∷ b ∷ xs) = (a, b) ∷ windows_2 (b ∷ xs)

-- `&xs[xs.len().saturating_sub(n)..]`
abbrev pub last_n : {A : Type 0} → ℕ → List A → List A
last_n n xs = drop (length xs - n) xs

-- Running sums of the true range and of the two directional movements.
pub record Directional (F : Type 0) : Type 0 where
  pub tr : F
  pub plus : F
  pub minus : F

module _ {F : Type 0} ⦃f : Float F⦄ where
  open f use {of_ℕ, decimal, lt, le, add, sub, mul, div, neg, abs, sqrt}

  -- `x == 0.0`
  abbrev pub is_zero : F → Bool
  is_zero x = le x (of_ℕ 0) && le (of_ℕ 0) x

  abbrev pub simple_returns : List F → List F
  simple_returns closes =
      map (λ (a, b). if is_zero a then of_ℕ 0 else sub (div b a) (of_ℕ 1)) (windows_2 closes)

  abbrev pub log_returns : (F → F) → List F → List F
  log_returns ln closes =
      map (λ (a, b). ln (div b a))
        (keep_if (λ (a, b). lt (of_ℕ 0) a && lt (of_ℕ 0) b) (windows_2 closes))

  abbrev pub mean_of : List F → F
  mean_of xs = div (sum xs) (of_ℕ (length xs))

  abbrev pub stddev : List F → F
  stddev xs =
      let mean = mean_of xs in
      if ltb (length xs) 2
      then of_ℕ 0
      else sqrt (mean_of (map (λ x. mul (sub x mean) (sub x mean)) xs))

  abbrev pub realized_vol : (F → F) → List F → ℕ → F
  realized_vol ln closes lookback =
      let rets = log_returns ln closes in
      if is_empty rets then of_ℕ 0 else mul (stddev (last_n lookback rets)) (sqrt (of_ℕ 252))

  unfoldable pub sma : List F → ℕ → Option F
  sma vals n =
      if leb n 0 || ltb (length vals) n
      then none
      else some (div (sum (drop (length vals - n) vals)) (of_ℕ n))

  -- The loop of the exponential average.
  unfoldable pub ema_from : F → F → List F → F
  ema_from k e [] = e
  ema_from k e (v ∷ vs) = ema_from k (add (mul v k) (mul e (sub (of_ℕ 1) k))) vs

  unfoldable pub ema : List F → ℕ → Option F
  unfolding ema_from
  ema [] n = none
  ema (v ∷ vs) n =
      if leb n 0 then none else some (ema_from (div (of_ℕ 2) (add (of_ℕ n) (of_ℕ 1))) v vs)

  abbrev pub true_ranges : List (Bar F) → List F
  true_ranges bars = map (λ (prev, cur). true_range cur prev.close) (windows_2 bars)

  unfoldable pub atr : List (Bar F) → ℕ → Option F
  atr bars lookback =
      let trs = true_ranges bars in
      if leb lookback 0 || leb (length bars) lookback
      then none
      else some (div (sum (drop (length trs - lookback) trs)) (of_ℕ lookback))

  abbrev pub plus_dm : Bar F → Bar F → F
  plus_dm prev cur =
      let up_move = sub cur.high prev.high in
      let down_move = sub prev.low cur.low in
      if lt down_move up_move && lt (of_ℕ 0) up_move then up_move else of_ℕ 0

  abbrev pub minus_dm : Bar F → Bar F → F
  minus_dm prev cur =
      let up_move = sub cur.high prev.high in
      let down_move = sub prev.low cur.low in
      if lt up_move down_move && lt (of_ℕ 0) down_move then down_move else of_ℕ 0

  -- The three quantities of each step.
  abbrev pub movements : List (Bar F) → List (Directional F)
  movements bars =
      map
        (λ (prev, cur). record {
          tr = true_range cur prev.close;
          plus = plus_dm prev cur;
          minus = minus_dm prev cur;
        })
        (windows_2 bars)

  abbrev pub seed_sums : List (Directional F) → Directional F
  seed_sums steps = record {
    tr = sum (map (λ (s : Directional F). s.tr) steps);
    plus = sum (map (λ (s : Directional F). s.plus) steps);
    minus = sum (map (λ (s : Directional F). s.minus) steps);
  }

  abbrev pub wilder : ℕ → F → F → F
  wilder period s x = add (sub s (div s (of_ℕ period))) x

  abbrev pub smooth : ℕ → Directional F → Directional F → Directional F
  smooth period s x = record {
    tr = wilder period s.tr x.tr;
    plus = wilder period s.plus x.plus;
    minus = wilder period s.minus x.minus;
  }

  unfoldable pub dx_at : Directional F → Option F
  dx_at s =
      let plus_di = div (mul (of_ℕ 100) s.plus) s.tr in
      let minus_di = div (mul (of_ℕ 100) s.minus) s.tr in
      let denom = add plus_di minus_di in
      if le s.tr (of_ℕ 0)
      then none
      else if le denom (of_ℕ 0)
      then some (of_ℕ 0)
      else some (div (mul (of_ℕ 100) (abs (sub plus_di minus_di))) denom)

  abbrev pub push_some : Option F → List F → List F
  push_some none rest = rest
  push_some (some x) rest = x ∷ rest

  -- The directional indices after the seed, one for each remaining step that has one.
  unfoldable pub dxs_from : ℕ → Directional F → List (Directional F) → List F
  dxs_from period s [] = push_some (dx_at s) []
  dxs_from period s (x ∷ xs) =
      let rest = dxs_from period (smooth period s x) xs in push_some (dx_at s) rest

  -- The average of the directional index, and that of gains or losses.
  unfoldable pub average_from : ℕ → F → List F → F
  average_from period a [] = a
  average_from period a (x ∷ xs) =
      average_from period (div (add (mul a (sub (of_ℕ period) (of_ℕ 1))) x) (of_ℕ period)) xs

  abbrev pub average_dx : ℕ → List F → Option F
  average_dx period dxs =
      if ltb (length dxs) period
      then (if is_empty dxs then none else some (mean_of dxs))
      else some (average_from period (div (sum (take period dxs)) (of_ℕ period)) (drop period dxs))

  unfoldable pub adx : List (Bar F) → ℕ → Option F
  unfolding dxs_from average_from dx_at
  adx bars period =
      let steps = movements bars in
      let dxs = dxs_from period (seed_sums (take period steps)) (drop period steps) in
      if leb period 0 || ltb (length bars) (2 * period + 1) then none else average_dx period dxs

  abbrev pub gain : F → F
  gain d = fmax d (of_ℕ 0)

  abbrev pub loss : F → F
  loss d = fmax (neg d) (of_ℕ 0)

  unfoldable pub rsi : List F → ℕ → Option F
  unfolding average_from
  rsi closes period =
      let deltas = map (λ (a, b). sub b a) (windows_2 closes) in
      let seed = λ (g : F → F). div (sum (map g (take period deltas))) (of_ℕ period) in
      let avg_gain = average_from period (seed gain) (map gain (drop period deltas)) in
      let avg_loss = average_from period (seed loss) (map loss (drop period deltas)) in
      let rs = div avg_gain avg_loss in
      if leb period 0 || leb (length closes) period
      then none
      else if is_zero avg_loss
      then some (of_ℕ 100)
      else some (sub (of_ℕ 100) (div (of_ℕ 100) (add (of_ℕ 1) rs)))

  abbrev pub minus? : Option F → Option F → Option F
  minus? (some a) (some b) = some (sub a b)
  minus? _ _ = none

  unfoldable pub rsi_slope : List F → ℕ → ℕ → Option F
  rsi_slope closes period k =
      let len = length closes in
      if leb k 0 || leb len (period + k)
      then none
      else minus? (rsi closes period) (rsi (take (len - k) closes) period)

  abbrev pub change : Option F → Option F → Option F
  change (some last) (some prev) =
      if is_zero prev then none else some (sub (div last prev) (of_ℕ 1))
  change _ _ = none

  -- The two lookups are in range after the test.
  unfoldable pub roc : List F → ℕ → Option F
  roc closes n =
      if leb n 0 || leb (length closes) n
      then none
      else change (last? closes) (get_elem? closes (length closes - 1 - n))

  unfoldable pub obv_from : F → Bar F → List (Bar F) → List F
  obv_from acc prev [] = []
  obv_from acc prev (b ∷ bs) =
      let next =
        if lt prev.close b.close
        then add acc b.volume
        else if lt b.close prev.close
        then sub acc b.volume
        else acc in
      next ∷ obv_from next b bs

  unfoldable pub obv : List (Bar F) → List F
  unfolding obv_from
  obv [] = []
  obv (b ∷ bs) = of_ℕ 0 ∷ obv_from (of_ℕ 0) b bs

  unfoldable pub covariance_from : F → F → F → ℕ → List F → F
  covariance_from mean_x mean_y num i [] = num
  covariance_from mean_x mean_y num i (y ∷ ys) =
      covariance_from mean_x mean_y (add num (mul (sub (of_ℕ i) mean_x) (sub y mean_y))) (i + 1) ys

  abbrev pub sign_or_zero : F → F
  sign_or_zero x = if lt (of_ℕ 0) x then of_ℕ 1 else if lt x (of_ℕ 0) then neg (of_ℕ 1) else of_ℕ 0

  unfoldable pub slope_sign : List F → F
  unfolding covariance_from
  slope_sign ys =
      let n = length ys in
      let mean_x = div (sub (of_ℕ n) (of_ℕ 1)) (of_ℕ 2) in
      if ltb n 2 then of_ℕ 0 else sign_or_zero (covariance_from mean_x (mean_of ys) (of_ℕ 0) 0 ys)

  abbrev pub dollar_adv : List (Bar F) → ℕ → F
  dollar_adv bars lookback =
      if is_empty bars
      then of_ℕ 0
      else mean_of (map (λ (b : Bar F). mul b.close b.volume) (last_n lookback bars))

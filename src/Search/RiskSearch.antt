-- ===== src/Search/RiskSearch.antt =====
-- crates/se-search/src/risk_search.rs: sampling, mutating and crossing risk models.
use swing_x.Prelude.{ℕ, zero, suc, Bool, Option, none, some, List, [], ◌∷◌, if◌then◌else◌}
use swing_x.Float.{Float, fmax, fmin}
use swing_x.Core.Risk.{StopSpec, TargetSpec, RiskModel}
use swing_x.Search.Rng.{Draws, ◌>>=◌, pure, below, choice, uniform, chance}

pub record RiskSpace (F : Type 0) : Type 0 where
  pub stop_atr_mults : List F
  pub target_r_mults : List F
  pub operator : RiskModel F

module _ {F : Type 0} ⦃f : Float F⦄ where
  open f use {of_ℕ, decimal, add, mul, abs}

  unfoldable pub risk_space : RiskModel F → RiskSpace F
  risk_space operator = record {
    stop_atr_mults = decimal 5 1 ∷ decimal 75 2 ∷ decimal 10 1 ∷ decimal 15 1 ∷ decimal 20 1 ∷ [];
    target_r_mults = decimal 15 1 ∷ decimal 20 1 ∷ decimal 25 1 ∷ decimal 30 1 ∷ [];
    operator = operator;
  }

  -- `*rng.choice(xs).unwrap_or(&default)`
  choice_or : F → List F → Draws F
  choice_or default xs = do o ← choice xs; pure (elim o [ none ↦ default | some x ↦ x ])

  -- A magnitude between 0.75 and 1.25 times the old one, and never below 1e-6.
  jitter : F → Draws F
  jitter v = do
    u ← uniform
    pure (fmax (mul (abs v) (add (decimal 75 2) (mul (decimal 5 1) u))) (decimal 1 6))

  draw_atr : RiskSpace F → Draws (StopSpec F)
  unfolding choice_or
  draw_atr space = do m ← choice_or (decimal 10 1) space.stop_atr_mults; pure (StopSpec.atr m)

  -- Keep the kind of the stop and draw its magnitude: the stop of `sample`, and `mutate_stop`.
  unfoldable pub mutate_stop : RiskSpace F → StopSpec F → Draws (StopSpec F)
  unfolding draw_atr jitter
  mutate_stop space (StopSpec.atr mult) = draw_atr space
  mutate_stop space (StopSpec.fixed dollars) = do d ← jitter dollars; pure (StopSpec.fixed d)
  mutate_stop space (StopSpec.percent pct) = do p ← jitter pct; pure (StopSpec.percent p)

  -- The second target, a step beyond the first.
  abbrev step_beyond : F → F
  step_beyond r1 = fmin (add r1 (decimal 10 1)) (decimal 50 1)

  unfoldable pub sample : RiskSpace F → Draws (RiskModel F)
  unfolding mutate_stop choice_or
  sample space = do
    stop ← mutate_stop space space.operator.stop
    r1 ← choice_or (decimal 20 1) space.target_r_mults
    pure (record {
      stop = stop;
      target1 = TargetSpec.r_multiple r1;
      target2 = some (TargetSpec.r_multiple (step_beyond r1));
    })

  swap_to : RiskSpace F → StopSpec F → ℕ → Draws (StopSpec F)
  unfolding draw_atr jitter
  swap_to space (StopSpec.atr mult) zero = draw_atr space
  swap_to space (StopSpec.atr mult) (suc zero) = do
    u ← uniform
    pure (StopSpec.percent (add (decimal 10 1) (mul (decimal 20 1) u)))
  swap_to space (StopSpec.atr mult) (suc (suc n)) = do
    u ← uniform
    pure (StopSpec.fixed (add (decimal 20 1) (mul (decimal 60 1) u)))
  swap_to space (StopSpec.fixed dollars) zero = do d ← jitter dollars; pure (StopSpec.fixed d)
  swap_to space (StopSpec.fixed dollars) (suc n) = draw_atr space
  swap_to space (StopSpec.percent pct) zero = do p ← jitter pct; pure (StopSpec.percent p)
  swap_to space (StopSpec.percent pct) (suc n) = draw_atr space

  unfoldable pub swap_stop_kind : RiskSpace F → StopSpec F → Draws (StopSpec F)
  unfolding swap_to
  swap_stop_kind space stop = do n ← below 3; swap_to space stop n

  abbrev retarget : Option (TargetSpec F) → F → Option (TargetSpec F)
  retarget none r1 = none
  retarget (some t) r1 = some (TargetSpec.r_multiple (step_beyond r1))

  mutate_arm : RiskSpace F → RiskModel F → ℕ → Draws (RiskModel F)
  unfolding choice_or
  mutate_arm space rm zero = do s ← mutate_stop space rm.stop; pure (record rm { stop = s })
  mutate_arm space rm (suc zero) = do
    r1 ← choice_or (decimal 20 1) space.target_r_mults
    pure (record rm { target1 = TargetSpec.r_multiple r1; target2 = retarget rm.target2 r1 })
  mutate_arm space rm (suc (suc n)) = do
    s ← swap_stop_kind space rm.stop
    pure (record rm { stop = s })

  unfoldable pub mutate_risk : RiskSpace F → RiskModel F → Draws (RiskModel F)
  unfolding mutate_arm
  mutate_risk space rm = do n ← below 3; mutate_arm space rm n

  unfoldable pub crossover_risk : RiskModel F → RiskModel F → Draws (RiskModel F)
  crossover_risk a b = do
    s ← chance (decimal 5 1)
    t ← chance (decimal 5 1)
    u ← chance (decimal 5 1)
    pure (record {
      stop = if s then a.stop else b.stop;
      target1 = if t then a.target1 else b.target1;
      target2 = if u then a.target2 else b.target2;
    })

  unfoldable pub seed_risk : RiskSpace F → Bool → Draws (RiskModel F)
  seed_risk space lock_risk rng = if lock_risk then (space.operator, rng) else sample space rng

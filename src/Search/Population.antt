-- ===== src/Search/Population.antt =====
-- Assembling a generation, of crates/se-search/src/population.rs. The signature of a genome is a parameter,
-- as is the text that tells seeds apart.
pub mod Generation
pub mod Tests
use Prim.Native.Nat.{◌/◌}
use swing_x.Prelude.{
  ℕ, zero, suc, ◌+◌, ◌-◌, ◌*◌, max, ◌≡◌, Bool, true, false, not, ◌&&◌, Option, none, some, List, [],
  ◌∷◌, ◌++◌, map, String, leb, ltb, if◌then◌else◌, length, take, get_elem?, is_empty, contains,
}
use swing_x.Float.{Float, fmax}
use swing_x.Core.Horizon.{Horizon}
use swing_x.Core.Risk.{RiskModel}
use swing_x.Core.Genome.{Genome}
use swing_x.Search.Rng.{Rng, Draws, ◌>>=◌, pure, below}
use swing_x.Search.Catalog.{FeatureCatalog}
use swing_x.Search.RiskSearch.{RiskSpace, mutate_risk, crossover_risk, seed_risk}
use swing_x.Search.Mutate.{mutate}
use swing_x.Search.Crossover.{crossover}
use swing_x.Search.Archetypes.{Seen, admit, seed_population}

-- What the manager reads of its configuration when it assembles a generation.
pub record SearchConfig (F : Type 0) : Type 0 where
  pub horizon : Horizon
  pub max_predicates : ℕ
  pub risk : RiskModel F
  pub lock_risk : Bool
  pub offspring_pool_mult : F
  pub catalog : FeatureCatalog F
  pub space : RiskSpace F

module _ {F : Type 0} ⦃f : Float F⦄ (signature describe : Genome F → String)
    (cfg : SearchConfig F) where
  open f use {of_ℕ, mul, ceil_usize}

  -- A mutation of the predicates and, unless it is locked, of the risk.
  unfoldable pub offspring : Genome F → Draws (Genome F)
  offspring g rng =
      let (m, rng1) = mutate g cfg.catalog rng in
      let (risk, rng2) = mutate_risk cfg.space g.risk rng1 in
      if cfg.lock_risk then (m, rng1) else (record m { risk = risk }, rng2)

  unfoldable pub crossed_pair : Genome F → Genome F → Draws (Genome F)
  crossed_pair a b rng =
      let (c, rng1) = crossover a b rng in
      let (risk, rng2) = crossover_risk a.risk b.risk rng1 in
      if cfg.lock_risk
      then (record c { risk = cfg.risk }, rng1)
      else (record c { risk = risk }, rng2)

  -- One mutation of each survivor, while there is room.
  unfoldable pub first_mutations : ℕ → List (Genome F) → Seen F → Draws (Seen F)
  first_mutations per_gen [] x rng = (x, rng)
  first_mutations per_gen (g ∷ gs) x rng =
      let (m, rng') = offspring g rng in
      let rest = first_mutations per_gen gs (admit signature m x) rng' in
      if leb per_gen (length x.1) then (x, rng) else rest

  -- The crossovers of neighbours, while there is room.
  unfoldable pub crossovers : ℕ → List (Genome F) → Seen F → Draws (Seen F)
  crossovers per_gen [] x rng = (x, rng)
  crossovers per_gen (a ∷ []) x rng = (x, rng)
  crossovers per_gen (a ∷ b ∷ gs) x rng =
      let (c, rng') = crossed_pair a b rng in
      let rest = crossovers per_gen (b ∷ gs) (admit signature c x) rng' in
      if leb per_gen (length x.1) then (x, rng) else rest

  abbrev pub admit_found : Option (Genome F) → Seen F → Draws (Seen F)
  admit_found none x rng = (x, rng)
  admit_found (some g) x rng = let (m, rng') = offspring g rng in (admit signature m x, rng')

  -- More mutations of survivors drawn at random, at most so many attempts.
  unfoldable pub explore : ℕ → List (Genome F) → ℕ → Seen F → Draws (Seen F)
  explore target survivors zero x rng = (x, rng)
  explore target survivors (suc attempts) x rng =
      let (i, rng1) = below (length survivors) rng in
      let (y, rng2) = admit_found (get_elem? survivors i) x rng1 in
      let rest = explore target survivors attempts y rng2 in
      if ltb (length x.1) target then rest else (x, rng)

  -- Fresh seeds with a risk of their own, while there is room.
  unfoldable pub top_up : ℕ → List (Genome F) → Seen F → Draws (Seen F)
  top_up target [] x rng = (x, rng)
  top_up target (g ∷ gs) x rng =
      let (risk, rng') = seed_risk cfg.space cfg.lock_risk rng in
      let rest = top_up target gs (admit signature (record g { risk = risk }) x) rng' in
      if leb target (length x.1) then (x, rng) else rest

  abbrev pub pool_target : ℕ → ℕ
  pool_target per_gen =
      max (ceil_usize (mul (of_ℕ per_gen) (fmax cfg.offspring_pool_mult (of_ℕ 1)))) per_gen

  abbrev pub explore_if : ℕ → List (Genome F) → ℕ → Seen F → Draws (Seen F)
  explore_if target survivors attempts x rng =
      if not (is_empty survivors) && ltb (length x.1) target
      then explore target survivors attempts x rng
      else (x, rng)

  abbrev pub top_up_if : ℕ → Seen F → Draws (Seen F)
  top_up_if target x rng =
      let (fresh, rng') =
        seed_population describe cfg.catalog cfg.horizon ((target - length x.1) * 2)
          cfg.max_predicates rng in
      if ltb (length x.1) target then top_up target fresh x rng' else (x, rng)

  -- The pool, before it is cut to `per_gen`: the survivors first, whatever was seen.
  unfoldable pub pool : List (Genome F) → ℕ → List String → Draws (Seen F)
  pool survivors per_gen global_seen = do
    let target = pool_target per_gen
    let elite : Seen F = (global_seen ++ map signature survivors, survivors)
    x1 ← first_mutations per_gen survivors elite
    x2 ← crossovers per_gen survivors x1
    x3 ← explore_if (per_gen + (target - per_gen) / 2) survivors (max (target * 4) 8) x2
    top_up_if target x3

  -- The genomes of the next generation, and the signatures seen then.
  unfoldable pub next_generation :
      List (Genome F) → ℕ → List String → Draws (List (Genome F) × List String)
  next_generation survivors per_gen global_seen rng =
      let (x, rng') = pool survivors per_gen global_seen rng in
      let genomes = take per_gen x.1 in ((genomes, global_seen ++ map signature genomes), rng')

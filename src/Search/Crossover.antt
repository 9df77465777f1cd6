-- ===== src/Search/Crossover.antt =====
-- `crossover` of crates/se-search/src/genome_ops.rs.
pub mod Valid
use swing_x.Prelude.{
  ℕ, zero, suc, ◌+◌, ◌≡◌, Bool, true, false, List, [], ◌∷◌, ◌++◌, String, leb, if◌then◌else◌,
  length, take, is_empty, contains,
}
use swing_x.Float.{Float}
use swing_x.Core.Genome.{Predicate, Genome, new}
use swing_x.Search.Rng.{Draws, below}
use swing_x.Search.Mutate.{max_predicates}

-- The feature keys inserted so far and the predicates picked.
pub record Picked (F : Type 0) : Type 0 where
  pub used : List String
  pub predicates : List (Predicate F)

module _ {F : Type 0} where
  abbrev pub none_picked : Picked F
  none_picked = record { used = []; predicates = [] }

  -- `if used.insert(..) { predicates.push(..) }`
  abbrev pub pick : Picked F → Predicate F → Picked F
  pick x p =
      if contains x.used p.feature_key
      then x
      else record { used = x.used ++ p.feature_key ∷ []; predicates = x.predicates ++ p ∷ [] }

  -- The loop over the prefix of `a`.
  pub pick_all : Picked F → List (Predicate F) → Picked F
  pick_all x [] = x
  pick_all x (p ∷ ps) = pick_all (pick x p) ps

  -- The loop over `b`, which stops at the cap.
  pub pick_capped : Picked F → List (Predicate F) → Picked F
  pick_capped x [] = x
  pick_capped x (p ∷ ps) =
      let rest = pick_capped (pick x p) ps in
      if leb max_predicates (length x.predicates) then x else rest

  pub cut_point : List (Predicate F) → Draws ℕ
  cut_point [] rng = (0, rng)
  cut_point (p ∷ ps) rng = let (i, rng') = below (length (p ∷ ps)) rng in (suc i, rng')

module _ {F : Type 0} ⦃f : Float F⦄ where
  pub crossover : Genome F → Genome F → Draws (Genome F)
  unfolding pick_all pick_capped cut_point
  crossover a b rng =
      let (cut_a, rng') = cut_point a.predicates rng in
      let from_a = pick_all none_picked (take cut_a a.predicates) in
      let picked = (pick_capped from_a b.predicates).predicates in
      (if is_empty picked then a else new a.side a.horizon picked, rng')

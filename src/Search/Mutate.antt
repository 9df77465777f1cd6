-- ===== src/Search/Mutate.antt =====
-- `mutate` of crates/se-search/src/genome_ops.rs, an operator for each of its arms. An index that is
-- drawn `below` a length is in range, so the empty case of a lookup by it is not reached.
pub mod Lists
pub mod Operators
pub mod Valid
use swing_x.Prelude.{
  ℕ, zero, suc, ◌+◌, ◌≡◌, Bool, true, false, not, ◌&&◌, Option, none, some, List, [], ◌∷◌, ◌++◌,
  map, ltb, ◌==◌, if◌then◌else◌, length, get_elem?, set, erase_idx, is_empty, any, keep_if,
  contains,
}
use swing_x.Float.{Float, clamp}
use swing_x.Core.Layer.{Layer, all_layers, same_layer}
use swing_x.Core.Genome.{CmpOp, Predicate, Genome, feature_keys}
use swing_x.Search.Rng.{Draws, ◌>>=◌, pure, below, uniform}
use swing_x.Search.Catalog.{FeatureStat, FeatureCatalog, stat_for_key, stats_in_layer, quantile}
use swing_x.Search.Draw.{draw_predicate, draw_predicate_in_layers}

abbrev pub max_predicates : ℕ
max_predicates = 4

abbrev pub flip : CmpOp → CmpOp
flip CmpOp.gt = CmpOp.lt
flip CmpOp.lt = CmpOp.gt
flip CmpOp.gte = CmpOp.lte
flip CmpOp.lte = CmpOp.gte

-- What an operator does to the predicates of a genome.
abbrev pub Operator : Type 0 → Type 0
Operator F = List (Predicate F) → Draws (List (Predicate F))

module _ {F : Type 0} where
  abbrev pub layers_present : List (Predicate F) → Layer → Bool
  layers_present ps layer = any (λ p. same_layer p.layer layer) ps

  abbrev has_stats : FeatureCatalog F → Layer → Bool
  has_stats c layer = not (is_empty (stats_in_layer c layer))

  pub underrepresented_layer : List (Predicate F) → FeatureCatalog F → Draws (Option Layer)
  underrepresented_layer ps c rng =
      let missing = keep_if (λ l. not (layers_present ps l) && has_stats c l) all_layers in
      if is_empty missing
      then (none, rng)
      else let (i, rng') = below (length missing) rng in (get_elem? missing i, rng')

  -- A drawn predicate is pushed unless its feature is in use.
  abbrev push_new : List (Predicate F) → Option (Predicate F) → List (Predicate F)
  push_new ps none = ps
  push_new ps (some p) = if contains (feature_keys ps) p.feature_key then ps else ps ++ p ∷ []

  -- It replaces predicate `i` unless one of the others uses its feature.
  abbrev swap_new : List (Predicate F) → ℕ → Option (Predicate F) → List (Predicate F)
  swap_new ps i none = ps
  swap_new ps i (some p) =
      if contains (erase_idx (feature_keys ps) i) p.feature_key then ps else set ps i p

  abbrev flip_found : List (Predicate F) → ℕ → Option (Predicate F) → List (Predicate F)
  flip_found ps i none = ps
  flip_found ps i (some p) = set ps i (record p { op = flip p.op })

  -- 1: flip a comparison operator.
  pub flip_op : Operator F
  flip_op ps rng =
      if is_empty ps
      then (ps, rng)
      else let (i, rng') = below (length ps) rng in (flip_found ps i (get_elem? ps i), rng')

  -- 4: remove a predicate, but not the last.
  pub remove_one : Operator F
  remove_one ps rng =
      if ltb 1 (length ps)
      then (let (i, rng') = below (length ps) rng in (erase_idx ps i, rng'))
      else (ps, rng)

module _ {F : Type 0} ⦃f : Float F⦄ where
  open f use {of_ℕ, decimal, add, sub, mul, div, lt}

  -- The number of observed values below the threshold, which the binary search finds in a sorted list.
  partition_point : F → List F → ℕ
  partition_point threshold [] = 0
  partition_point threshold (v ∷ vs) =
      if lt v threshold then suc (partition_point threshold vs) else 0

  move_threshold : Predicate F → Option F → Predicate F
  move_threshold p none = p
  move_threshold p (some t) = record p { threshold = t }

  perturb_threshold_span : Predicate F → FeatureStat F → F → Draws (Predicate F)
  unfolding partition_point move_threshold
  perturb_threshold_span p s span rng =
      let n = length s.sorted_values in
      let cur_rank =
        div (of_ℕ (partition_point p.threshold s.sorted_values)) (sub (of_ℕ n) (of_ℕ 1)) in
      if ltb n 2
      then (p, rng)
      else let (u, rng') = uniform rng in
        let delta = mul (sub u (decimal 5 1)) span in
        (move_threshold p (quantile s (clamp (add cur_rank delta) (of_ℕ 0) (of_ℕ 1))), rng')

  perturb_found :
      F → List (Predicate F) → ℕ → Predicate F → Option (FeatureStat F) → Draws (List (Predicate F))
  unfolding perturb_threshold_span
  perturb_found span ps i p none rng = (ps, rng)
  perturb_found span ps i p (some s) rng =
      let (q, rng') = perturb_threshold_span p s span rng in (set ps i q, rng')

  perturb_at :
      FeatureCatalog F
      → F
      → List (Predicate F)
      → ℕ
      → Option (Predicate F)
      → Draws (List (Predicate F))
  unfolding perturb_found
  perturb_at c span ps i none rng = (ps, rng)
  perturb_at c span ps i (some p) rng = perturb_found span ps i p (stat_for_key c p.feature_key) rng

  -- 0 and 7: move a threshold by a small or a wide step.
  pub perturb : FeatureCatalog F → F → Operator F
  unfolding perturb_at
  perturb c span ps rng =
      if is_empty ps
      then (ps, rng)
      else let (i, rng') = below (length ps) rng in perturb_at c span ps i (get_elem? ps i) rng'

  -- 2: swap a predicate for a fresh one.
  pub swap : FeatureCatalog F → Operator F
  swap c ps rng =
      if is_empty ps
      then (ps, rng)
      else let (i, rng') = below (length ps) rng in
        let (drawn, rng'') = draw_predicate c rng' in (swap_new ps i drawn, rng'')

  -- 3: add a predicate if there is room.
  pub add_one : FeatureCatalog F → Operator F
  add_one c ps rng =
      if ltb (length ps) max_predicates
      then (let (drawn, rng') = draw_predicate c rng in (push_new ps drawn, rng'))
      else (ps, rng)

  add_in : FeatureCatalog F → List (Predicate F) → Option Layer → Draws (List (Predicate F))
  add_in c ps none rng = (ps, rng)
  add_in c ps (some layer) rng =
      let (drawn, rng') = draw_predicate_in_layers c (layer ∷ []) rng in (push_new ps drawn, rng')

  -- 5: add a predicate of a layer that the genome lacks.
  pub add_missing : FeatureCatalog F → Operator F
  unfolding add_in
  add_missing c ps rng =
      if ltb (length ps) max_predicates
      then (let (layer, rng') = underrepresented_layer ps c rng in add_in c ps layer rng')
      else (ps, rng)

  jump_in : FeatureCatalog F → List (Predicate F) → ℕ → Option Layer → Draws (List (Predicate F))
  jump_in c ps i none rng = (ps, rng)
  jump_in c ps i (some layer) rng =
      let (drawn, rng') = draw_predicate_in_layers c (layer ∷ []) rng in (swap_new ps i drawn, rng')

  jump_at :
      FeatureCatalog F → List (Predicate F) → ℕ → Option (Predicate F) → Draws (List (Predicate F))
  unfolding jump_in
  jump_at c ps i none rng = (ps, rng)
  jump_at c ps i (some p) rng =
      let targets = keep_if (λ l. not (same_layer l p.layer) && has_stats c l) all_layers in
      if is_empty targets
      then (ps, rng)
      else let (j, rng') = below (length targets) rng in jump_in c ps i (get_elem? targets j) rng'

  -- 6: swap a predicate for one of another layer.
  pub jump : FeatureCatalog F → Operator F
  unfolding jump_at
  jump c ps rng =
      if is_empty ps
      then (ps, rng)
      else let (i, rng') = below (length ps) rng in jump_at c ps i (get_elem? ps i) rng'

  -- The arms of the match, by the roll.
  pub operator : FeatureCatalog F → ℕ → Operator F
  operator c zero = perturb c (decimal 30 2)
  operator c (suc zero) = flip_op
  operator c (suc (suc zero)) = swap c
  operator c (suc (suc (suc zero))) = add_one c
  operator c (suc (suc (suc (suc zero)))) = remove_one
  operator c (suc (suc (suc (suc (suc zero))))) = add_missing c
  operator c (suc (suc (suc (suc (suc (suc zero)))))) = jump c
  operator c (suc (suc (suc (suc (suc (suc (suc roll))))))) = perturb c (decimal 80 2)

  pub mutate : Genome F → FeatureCatalog F → Draws (Genome F)
  mutate g c rng =
      if is_empty c.stats
      then (g, rng)
      else let (roll, rng') = below 8 rng in
        let (ps, rng'') = operator c roll g.predicates rng' in
        (if is_empty ps then g else record g { predicates = ps }, rng'')

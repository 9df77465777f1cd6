-- ===== src/Search/Archetypes.antt =====
-- The archetypes and the seed populations of crates/se-search/src/seed.rs. A population is told apart by
-- the text that `describe` gives of a genome, which is a parameter.
use swing_x.Prelude.{
  ℕ, zero, suc, ◌*◌, Bool, true, false, not, ◌&&◌, Option, none, some, List, [], ◌∷◌, ◌++◌, String,
  leb, if◌then◌else◌, length, is_empty, any, contains,
}
use swing_x.Float.{Float, clamp}
use swing_x.Core.Layer.{Layer}
use swing_x.Core.Market.{Side}
use swing_x.Core.Horizon.{Horizon}
use swing_x.Core.Genome.{CmpOp, Predicate, Genome, new}
use swing_x.Search.Rng.{Draws, chance}
use swing_x.Search.Catalog.{
  FeatureCatalog, has_actionable_feature, is_actionable, stat_for_key, quantile,
}
use swing_x.Search.Seed.{random_genome, random_genome_promotable}

-- A predicate whose threshold is the given quantile of what was observed.
pub record Template (F : Type 0) : Type 0 where
  pub layer : Layer
  pub key : String
  pub op : CmpOp
  pub at : F

pub record Archetype (F : Type 0) : Type 0 where
  pub name : String
  pub side : Side
  pub preds : List (Template F)

module _ {F : Type 0} ⦃f : Float F⦄ where
  open f use {of_ℕ, decimal}

  abbrev template : Layer → String → CmpOp → F → Template F
  template layer key op at = record { layer = layer; key = key; op = op; at = at }

  abbrev pub archetypes : List (Archetype F)
  archetypes =
      record {
        name = "trend_follow_long";
        side = Side.long;
        preds =
            template Layer.regime "regime.adx" CmpOp.gt (decimal 65 2)
            ∷ template Layer.location "location.dist_50dma" CmpOp.gt (decimal 60 2)
            ∷ template Layer.trigger "trigger.momentum_roc" CmpOp.gt (decimal 60 2)
            ∷ [];
      }
      ∷ record {
        name = "rs_breakout_long";
        side = Side.long;
        preds =
            template Layer.regime "regime.adx" CmpOp.gt (decimal 55 2)
            ∷ template Layer.trigger "trigger.rs_vs_spy" CmpOp.gt (decimal 70 2)
            ∷ template Layer.location "location.pct_range_position" CmpOp.gt (decimal 70 2)
            ∷ [];
      }
      ∷ record {
        name = "mean_revert_long";
        side = Side.long;
        preds =
            template Layer.trigger "trigger.rsi14" CmpOp.lt (decimal 25 2)
            ∷ template Layer.location "location.dist_200dma" CmpOp.gt (decimal 45 2)
            ∷ template Layer.regime "regime.adx" CmpOp.lt (decimal 50 2)
            ∷ [];
      }
      ∷ record {
        name = "vwap_reclaim_long";
        side = Side.long;
        preds =
            template Layer.location "location.anchored_vwap_dist" CmpOp.lt (decimal 30 2)
            ∷ template Layer.trigger "trigger.rsi14" CmpOp.lt (decimal 35 2)
            ∷ template Layer.regime "regime.rv_percentile" CmpOp.lt (decimal 60 2)
            ∷ [];
      }
      ∷ record {
        name = "trend_follow_short";
        side = Side.short;
        preds =
            template Layer.regime "regime.adx" CmpOp.gt (decimal 65 2)
            ∷ template Layer.location "location.dist_50dma" CmpOp.lt (decimal 40 2)
            ∷ template Layer.trigger "trigger.momentum_roc" CmpOp.lt (decimal 40 2)
            ∷ [];
      }
      ∷ record {
        name = "rs_breakdown_short";
        side = Side.short;
        preds =
            template Layer.regime "regime.adx" CmpOp.gt (decimal 55 2)
            ∷ template Layer.trigger "trigger.rs_vs_spy" CmpOp.lt (decimal 30 2)
            ∷ template Layer.location "location.pct_range_position" CmpOp.lt (decimal 30 2)
            ∷ [];
      }
      ∷ record {
        name = "mean_revert_short";
        side = Side.short;
        preds =
            template Layer.trigger "trigger.rsi14" CmpOp.gt (decimal 75 2)
            ∷ template Layer.location "location.dist_200dma" CmpOp.gt (decimal 70 2)
            ∷ template Layer.regime "regime.adx" CmpOp.lt (decimal 50 2)
            ∷ [];
      }
      ∷ []

  abbrev bind_threshold : FeatureCatalog F → Template F → Option F
  bind_threshold c t = elim (stat_for_key c t.key) [ none ↦ none | some s ↦ quantile s t.at ]

  -- The loop over the templates of an archetype, which fails where a feature is not observed.
  unfoldable pub express :
      FeatureCatalog F
      → List String
      → List (Predicate F)
      → List (Template F)
      → Option (List (Predicate F))
  express c used ps [] = some ps
  express c used ps (t ∷ ts) =
      let skipped = express c used ps ts in
      let pushed = λ (threshold : F).
        express c (used ++ t.key ∷ [])
          (ps
            ++ record { layer = t.layer; feature_key = t.key; op = t.op; threshold = threshold }
              ∷ [])
          ts in
      if contains used t.key
      then skipped
      else elim (bind_threshold c t) [ none ↦ none | some threshold ↦ pushed threshold ]

  abbrev keep_archetype :
      Horizon → Side → Option (List (Predicate F)) → List (Genome F) → List (Genome F)
  keep_archetype horizon side none rest = rest
  keep_archetype horizon side (some ps) rest =
      if any (λ p. is_actionable p.layer) ps && not (is_empty ps)
      then new side horizon ps ∷ rest
      else rest

  unfoldable pub archetype_seeds_of :
      FeatureCatalog F → Horizon → List (Archetype F) → List (Genome F)
  archetype_seeds_of c horizon [] = []
  archetype_seeds_of c horizon (a ∷ more) =
      keep_archetype horizon a.side (express c [] [] a.preds) (archetype_seeds_of c horizon more)

  unfoldable pub archetype_seeds : FeatureCatalog F → Horizon → List (Genome F)
  archetype_seeds c horizon = archetype_seeds_of c horizon archetypes

-- The texts seen so far and the genomes kept.
abbrev pub Seen : Type 0 → Type 0
Seen F = List String × List (Genome F)

module _ {F : Type 0} (describe : Genome F → String) where
  -- `if seen.insert(..) { out.push(..) }`
  abbrev pub admit : Genome F → Seen F → Seen F
  admit g (seen, out) =
      if contains seen (describe g) then (seen, out) else (seen ++ describe g ∷ [], out ++ g ∷ [])

  abbrev pub admit_drawn : Option (Genome F) → Seen F → Seen F
  admit_drawn none x = x
  admit_drawn (some g) x = admit g x

  -- The loop over the archetypes, which stops at the size.
  unfoldable pub admit_until : ℕ → List (Genome F) → Seen F → Seen F
  admit_until size [] x = x
  admit_until size (g ∷ gs) x =
      let rest = admit_until size gs (admit g x) in if leb size (length x.1) then x else rest

module _ {F : Type 0} ⦃f : Float F⦄ (describe : Genome F → String) where
  abbrev draw_seed : FeatureCatalog F → Horizon → ℕ → Bool → Draws (Option (Genome F))
  draw_seed c horizon most true = random_genome_promotable c horizon most
  draw_seed c horizon most false = random_genome c horizon most

  -- `can_bias && rng.chance(bias)`
  abbrev want_promotable : FeatureCatalog F → F → Draws Bool
  want_promotable c bias rng = if has_actionable_feature c then chance bias rng else (false, rng)

  -- The loop of random seeds, at most so many attempts.
  unfoldable pub fill : FeatureCatalog F → Horizon → ℕ → F → ℕ → ℕ → Seen F → Draws (Seen F)
  fill c horizon most bias size zero x rng = (x, rng)
  fill c horizon most bias size (suc attempts) x rng =
      let (want, rng1) = want_promotable c bias rng in
      let (g, rng2) = draw_seed c horizon most want rng1 in
      let rest = fill c horizon most bias size attempts (admit_drawn describe g x) rng2 in
      if leb size (length x.1) then (x, rng) else rest

  unfoldable pub seed_population_biased :
      FeatureCatalog F → Horizon → ℕ → ℕ → F → Draws (List (Genome F))
  seed_population_biased c horizon size most promotable_bias rng =
      let bias = clamp promotable_bias (f.of_ℕ 0) (f.of_ℕ 1) in
      let lead = admit_until describe size (archetype_seeds c horizon) ([], []) in
      let (x, rng') = fill c horizon most bias size (size * 8) lead rng in (x.1, rng')

  unfoldable pub seed_population : FeatureCatalog F → Horizon → ℕ → ℕ → Draws (List (Genome F))
  seed_population c horizon size most = seed_population_biased c horizon size most (f.decimal 6 1)

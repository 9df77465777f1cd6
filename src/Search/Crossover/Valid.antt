-- ===== src/Search/Crossover/Valid.antt =====
-- A crossover of valid genomes is valid.
use swing_x.Prelude.{
  ℕ, suc, ◌+◌, ◌≤◌, ◌<◌, ◌≡◌, refl, sym, ap, ◌∙◌, inl, inr, List, [], ◌∷◌, ◌++◌, arith, leb, length,
  length-append, length-take, take, is_empty, contains, Distinct, Distinct-snoc, All, All-append,
  All-take, Bool-cases,
}
use swing_x.Float.{Float}
use swing_x.Core.Genome.{Predicate, Genome, feature_keys, new}
use swing_x.Search.Rng.{Rng}
use swing_x.Search.Catalog.{FeatureCatalog}
use swing_x.Search.Draw.OnCatalog.{OnCatalog}
use swing_x.Search.Mutate.{max_predicates}
use swing_x.Search.Mutate.Lists.{feature_keys-append}
use swing_x.Search.Mutate.Operators.{IsValid}
use swing_x.Search.Crossover.{
  Picked, none_picked, pick, pick_all, pick_capped, cut_point, crossover,
}

-- The set of used keys is that of the picked predicates, which are distinct and on the catalog.
pub record IsConsistent {F : Type 0} (c : FeatureCatalog F) (x : Picked F) : Type 0 where
  pub same : x.used ≡ feature_keys x.predicates
  pub distinct : Distinct x.used
  pub on_catalog : All (OnCatalog c) x.predicates

module _ {F : Type 0} (c : FeatureCatalog F) where
  pub pick-IsConsistent :
      (x : Picked F) (p : Predicate F)
      → IsConsistent c x
      → OnCatalog c p
      → IsConsistent c (pick x p)
  pick-IsConsistent x p h on = elim (Bool-cases (contains x.used p.feature_key)) [
    | inl e ↦ rw e h
    | inr e ↦ rw e (record {
      same = ap (◌++ p.feature_key ∷ []) h.same ∙ sym (feature_keys-append x.predicates (p ∷ []));
      distinct = Distinct-snoc x.used p.feature_key h.distinct e;
      on_catalog = All-append (OnCatalog c) x.predicates (p ∷ []) h.on_catalog (on, tt);
    })
  ]

  pick_all-IsConsistent :
      (ps : List (Predicate F)) (x : Picked F)
      → IsConsistent c x
      → All (OnCatalog c) ps
      → IsConsistent c (pick_all x ps)
  unfolding pick_all
  pick_all-IsConsistent [] x h on = h
  pick_all-IsConsistent (p ∷ ps) x h (on, ons) =
      pick_all-IsConsistent ps (pick x p) (pick-IsConsistent x p h on) ons

  pick_capped-IsConsistent :
      (ps : List (Predicate F)) (x : Picked F)
      → IsConsistent c x
      → All (OnCatalog c) ps
      → IsConsistent c (pick_capped x ps)
  unfolding pick_capped
  pick_capped-IsConsistent [] x h on = h
  pick_capped-IsConsistent (p ∷ ps) x h (on, ons) =
      let rest = pick_capped-IsConsistent ps (pick x p) (pick-IsConsistent x p h on) ons in
      elim (Bool-cases (leb max_predicates (length x.predicates))) [
        | inl e ↦ rw e h
        | inr e ↦ rw e rest
      ]

module _ {F : Type 0} where
  -- A step keeps what was picked and adds one predicate at most.
  pub length-pick :
      (x : Picked F) (p : Predicate F)
      → (length x.predicates ≤ length (pick x p).predicates)
        × (length (pick x p).predicates ≤ length x.predicates + 1)
  length-pick x p = elim (Bool-cases (contains x.used p.feature_key)) [
    | inl e ↦ rw e (omega arith, omega arith)
    | inr e ↦ rw e (
      omega (arith, length-append x.predicates (p ∷ [])),
      omega (arith, length-append x.predicates (p ∷ [])),
    )
  ]

  length-pick_all :
      (ps : List (Predicate F)) (x : Picked F)
      → (length x.predicates ≤ length (pick_all x ps).predicates)
        × (length (pick_all x ps).predicates ≤ length x.predicates + length ps)
  unfolding pick_all
  length-pick_all [] x = (omega arith, omega arith)
  length-pick_all (p ∷ ps) x =
      let (lo, hi) = length-pick x p in
      let (lo', hi') = length-pick_all ps (pick x p) in
      (omega (arith, lo, lo'), omega (arith, hi, hi'))

  length-pick_capped :
      (ps : List (Predicate F)) (x : Picked F)
      → length x.predicates ≤ max_predicates
      → (length x.predicates ≤ length (pick_capped x ps).predicates)
        × (length (pick_capped x ps).predicates ≤ max_predicates)
  unfolding pick_capped
  length-pick_capped [] x h = (omega arith, h)
  length-pick_capped (p ∷ ps) x h = elim (Bool-cases (leb max_predicates (length x.predicates))) [
    | inl e ↦ rw e (omega arith, h)
    | inr e ↦
        let (lo, hi) = length-pick x p in
        let room : length x.predicates < max_predicates = ground arith in
        let (lo', hi') = length-pick_capped ps (pick x p) (omega (arith, hi, room)) in
        rw e (omega (arith, lo, lo'), hi')
  ]

  picks_one :
      (p : Predicate F) (ps : List (Predicate F)) (n : ℕ)
      → 0 < length (pick_all none_picked (take (suc n) (p ∷ ps))).predicates
  unfolding pick_all
  picks_one p ps n = (length-pick_all (take n ps) (pick none_picked p)).0

  abbrev picks_of_a : List (Predicate F) → Rng → Picked F
  picks_of_a ps rng = pick_all none_picked (take (cut_point ps rng).0 ps)

  picks_of_a-nonempty :
      (ps : List (Predicate F)) (rng : Rng)
      → 0 < length ps
      → 0 < length (picks_of_a ps rng).predicates
  unfolding cut_point
  picks_of_a-nonempty [] rng h = absurd (omega arith)
  picks_of_a-nonempty (p ∷ ps) rng h = picks_one p ps _

module _ {F : Type 0} ⦃f : Float F⦄ (c : FeatureCatalog F) where
  crossed :
      (a : Genome F) (b : List (Predicate F)) (rng : Rng)
      → IsValid c a.predicates
      → All (OnCatalog c) b
      → IsValid c (pick_capped (picks_of_a a.predicates rng) b).predicates
  crossed a b rng v on =
      let cut = (cut_point a.predicates rng).0 in
      let from_a = pick_all none_picked (take cut a.predicates) in
      let start : IsConsistent c none_picked = record {
        same = refl;
        distinct = tt;
        on_catalog = tt;
      } in
      let all_a =
        pick_all-IsConsistent c (take cut a.predicates) none_picked start
          (All-take (OnCatalog c) cut a.predicates v.on_catalog) in
      let h = pick_capped-IsConsistent c b from_a all_a on in
      let (_, hi) = length-pick_all (take cut a.predicates) none_picked in
      let short = length-take cut a.predicates in
      let (lo', hi') = length-pick_capped b from_a (omega (arith, hi, short, v.bounded)) in
      record {
        nonempty = omega (arith, lo', picks_of_a-nonempty a.predicates rng v.nonempty);
        bounded = hi';
        distinct = rw (sym h.same) h.distinct;
        on_catalog = h.on_catalog;
      }

  -- Whatever the generator draws, crossing a genome with one to four predicates over distinct features
  -- of the catalog, each at an observed value, with one whose predicates are on the catalog, gives such
  -- a genome, of the first one's side and horizon.
  pub crossover-IsValid :
      (a b : Genome F) (rng : Rng)
      → IsValid c a.predicates
      → All (OnCatalog c) b.predicates
      → IsValid c (crossover a b rng).0.predicates
        × ((crossover a b rng).0.side ≡ a.side)
        × ((crossover a b rng).0.horizon ≡ a.horizon)
  unfolding crossover new
  crossover-IsValid a b rng v on =
      let picked = (pick_capped (picks_of_a a.predicates rng) b.predicates).predicates in
      let kept = crossed a b.predicates rng v on in
      elim (Bool-cases (is_empty picked)) [
        | inl e ↦ rw e (v, refl, refl)
        | inr e ↦ rw e (kept, refl, refl)
      ]

-- ===== src/Search/Evolve/Identity.antt =====
-- The identities of the members that the search evaluates.
use swing_x.Prelude.{
  ℕ, zero, suc, ◌+◌, ◌≡◌, refl, sym, ap, ◌∙◌, ◌↔◌, inl, inr, true, Option, none, some,
  some-injective, List, [], ◌∷◌, ◌++◌, String, str_eq, str_eq_iff, length, lookup, get_elem?,
  is_empty, All, All-map, All-append, All-OneOf, OneOf, Bool-cases, arith,
}
use swing_x.Prelude.Results.{ok, ok-injective}
use swing_x.Float.{Float}
use swing_x.Core.Genome.{Genome}
use swing_x.Validation.Harness.{Worker}
use swing_x.Store.Order.{All-order_by}
use swing_x.Search.Rng.{seeded}
use swing_x.Search.Score.{Evaluated}
use swing_x.Search.Firewall.{DatasetRow}
use swing_x.Search.Population.{next_generation}
use swing_x.Search.Persist.{SearchDb}
use swing_x.Search.Evolve.{
  Manager, EvolveOutcome, Ids, or_mint, identity, above, leaderboard, evaluate_genome, evaluate_all,
  generations, evolve,
}

-- Each identity is the one minted at its place.
abbrev pub Minted : (ℕ → ℕ) → ℕ → Ids → Type 0
Minted mint n [] = Unit
Minted mint n ((s, id) ∷ m) = (id ≡ mint n) × Minted mint (suc n) m

Minted-append :
    (mint : ℕ → ℕ) (n : ℕ) (s : String) (m : Ids)
    → Minted mint n m
    → Minted mint n (m ++ (s, mint (n + length m)) ∷ [])
Minted-append mint n s [] h = let same : n + 0 ≡ n = omega arith in (ap mint same, tt)
Minted-append mint n s ((j, id) ∷ m) (e, h) =
    let same : n + suc (length m) ≡ suc n + length m = omega arith in
    (e, rw same (Minted-append mint (suc n) s m h))

-- The place of an identity that is found.
lookup-place :
    (mint : ℕ → ℕ) (n : ℕ) (m : Ids) (s : String) (id : ℕ)
    → Minted mint n m
    → lookup s m ≡ some id
    → (i : ℕ) × (id ≡ mint (n + i)) × (get_elem? m i ≡ some (s, id))
lookup-place mint n [] s id h e = cc
lookup-place mint n ((j, k) ∷ m) s id (c, h) e = elim (Bool-cases (str_eq j s)) [
  | inl t ↦
      let same = some-injective _ _ (rw t at e) in
      let key = (str_eq_iff j s).0 t in
      let here : n ≡ n + 0 = omega arith in
      (0, sym same ∙ (c ∙ ap mint here), λ i. some (key i, same i))
  | inr t ↦
      let (i, d, at) = lookup-place mint (suc n) m s id h (rw t at e) in
      let there : suc n + i ≡ n + suc i = omega arith in (suc i, d ∙ ap mint there, at)
]

lookup-append :
    (s : String) (m more : Ids) (id : ℕ) → lookup s m ≡ some id → lookup s (m ++ more) ≡ some id
lookup-append s [] more id e = cc
lookup-append s ((j, k) ∷ m) more id e = elim (Bool-cases (str_eq j s)) [
  | inl t ↦ rw t (rw t at e)
  | inr t ↦ rw t (lookup-append s m more id (rw t at e))
]

lookup-append_new :
    (s : String) (m : Ids) (id : ℕ) → lookup s m ≡ none → lookup s (m ++ (s, id) ∷ []) ≡ some id
lookup-append_new s [] id e = let t : str_eq s s ≡ true = (str_eq_iff s s).1 refl in rw t refl
lookup-append_new s ((j, k) ∷ m) id e = elim (Bool-cases (str_eq j s)) [
  | inl t ↦ absurd (cc (rw t at e))
  | inr t ↦ rw t (lookup-append_new s m id (rw t at e))
]

-- The map keeps what it has.
abbrev pub Keeps : Ids → Ids → Type 0
Keeps m more = (s : String) (id : ℕ) → lookup s m ≡ some id → lookup s more ≡ some id

or_mint_lem :
    (mint : ℕ → ℕ) (sig : String) (m : Ids) (o : Option ℕ)
    → Minted mint 0 m
    → lookup sig m ≡ o
    → let (id, more) = or_mint mint sig m o in
      (lookup sig more ≡ some id) × Minted mint 0 more × Keeps m more
or_mint_lem mint sig m (some id) h e = (e, h, λ s k d. d)
or_mint_lem mint sig m none h e =
    let last : 0 + length m ≡ length m = omega arith in
    (
      lookup-append_new sig m (mint (length m)) e,
      rw last at (Minted-append mint 0 sig m h),
      λ s k d. lookup-append s m _ k d,
    )

identity_lem :
    (mint : ℕ → ℕ) (sig : String) (m : Ids)
    → Minted mint 0 m
    → let (id, more) = identity mint sig m in
      (lookup sig more ≡ some id) × Minted mint 0 more × Keeps m more
unfolding identity
identity_lem mint sig m h = or_mint_lem mint sig m (lookup sig m) h refl

module _ {E F : Type 0} ⦃f : Float F⦄ (exp : F → F) (w : Worker (DatasetRow F) E F)
    (dataset_name : ℕ → String) (signature describe : Genome F → String) (mint : ℕ → ℕ)
    (m : Manager F) where
  -- The member has the identity of its signature.
  abbrev pub IsNamed : Ids → Evaluated F → Type 0
  IsNamed ids ev = lookup (signature ev.strategy.genome) ids ≡ some ev.strategy.id

  evaluate_all-IsNamed :
      (gen : ℕ) (gs : List (Genome F)) (ids : Ids) (db : SearchDb F)
      → Minted mint 0 ids
      → let (evs, after) =
          evaluate_all exp w dataset_name signature describe mint m gen gs ids db in
        All (IsNamed after.0) evs × Minted mint 0 after.0 × Keeps ids after.0
  unfolding evaluate_all evaluate_genome
  evaluate_all-IsNamed gen [] ids db h = (tt, h, λ s id e. e)
  evaluate_all-IsNamed gen (g ∷ gs) ids db h =
      let (found, h1, kept) = identity_lem mint (signature g) ids h in
      let (named, h2, kept2) = evaluate_all-IsNamed gen gs _ _ h1 in
      ((kept2 _ _ found, named), h2, λ s id e. kept2 s id (kept s id e))

  generations-IsNamed :
      (left gen per_gen : ℕ) (survivors : List (Genome F)) (seen : List String) (ids : Ids)
      (db : SearchDb F)
      → Minted mint 0 ids
      → let (evs, after) =
          generations exp w dataset_name signature describe mint m left gen per_gen survivors seen
            ids db in
        All (IsNamed after.0) evs × Minted mint 0 after.0 × Keeps ids after.0
  unfolding generations
  generations-IsNamed zero gen per_gen survivors seen ids db h = (tt, h, λ s id e. e)
  generations-IsNamed (suc left) gen per_gen survivors seen ids db h =
      let (next, rng) =
        next_generation signature describe m.cfg survivors per_gen seen (seeded m.base_seed gen) in
      let (named, h1, kept) = evaluate_all-IsNamed gen next.0 ids db h in
      let (more, h2, kept2) = generations-IsNamed left (suc gen) per_gen _ next.1 _ _ h1 in
      (
        All-append (IsNamed _) _ _ (All-map (IsNamed _) (IsNamed _) _ (λ ev e. kept2 _ _ e) named)
            more,
        h2,
        λ s id e. kept2 s id (kept s id e),
      )

  -- The outcome of a search that had features to draw from.
  pub evolve-outcome :
      (count per_gen : ℕ) (db : SearchDb F) (outcome : EvolveOutcome F)
      → (evolve exp w dataset_name signature describe mint m count per_gen db).0 ≡ ok outcome
      → leaderboard
          (generations exp w dataset_name signature describe mint m count 0 per_gen [] [] [] db).0
        ≡ outcome.evaluated
  unfolding evolve
  evolve-outcome count per_gen db outcome done = elim (Bool-cases (is_empty m.cfg.catalog.stats)) [
    | inl e ↦ absurd (cc (rw e at done))
    | inr e ↦ ap (λ (o : EvolveOutcome F). o.evaluated) (ok-injective (rw e at done))
  ]

  -- Where identities are minted afresh, two members of the outcome of a search, of one generation or of two,
  -- have the same identity exactly when their genomes have the same signature.
  pub evolve-identity :
      ((i j : ℕ) → mint i ≡ mint j → i ≡ j)
      → (count per_gen : ℕ) (db : SearchDb F) (outcome : EvolveOutcome F) (a b : Evaluated F)
      → (evolve exp w dataset_name signature describe mint m count per_gen db).0 ≡ ok outcome
      → OneOf a outcome.evaluated
      → OneOf b outcome.evaluated
      → (a.strategy.id ≡ b.strategy.id)
        ↔ (signature a.strategy.genome ≡ signature b.strategy.genome)
  unfolding leaderboard
  evolve-identity fresh count per_gen db outcome a b done in_a in_b =
      let ids =
        (generations exp w dataset_name signature describe mint m count 0 per_gen [] [] []
          db).1.0 in
      let (named, minted, kept) = generations-IsNamed count 0 per_gen [] [] [] db tt in
      let ranked =
        rw (evolve-outcome count per_gen db outcome done) at
          (All-order_by above (IsNamed _) _ named) in
      let of_a = All-OneOf (IsNamed _) _ a ranked in_a in
      let of_b = All-OneOf (IsNamed _) _ b ranked in_b in
      let (i, mint_i, at_i) = lookup-place mint 0 _ _ _ minted of_a in
      let (j, mint_j, at_j) = lookup-place mint 0 _ _ _ minted of_b in
      (
        λ same.
            let place : i ≡ j =
              omega (arith, fresh (0 + i) (0 + j) (sym mint_i ∙ (same ∙ mint_j))) in
            ap (λ x. x.0) (some-injective _ _ (sym at_i ∙ (ap (get_elem? _) place ∙ at_j))),
        λ same. some-injective _ _ (sym of_a ∙ (ap (λ s. lookup s ids) same ∙ of_b)),
      )

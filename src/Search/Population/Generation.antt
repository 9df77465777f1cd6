-- ===== src/Search/Population/Generation.antt =====
-- What the next generation is made of.
use swing_x.Prelude.{
  ℕ, zero, suc, ◌≤◌, ◌≡◌, refl, sym, ap, ◌∙◌, inl, inr, false, not, ◌&&◌, Option, none, some, List,
  [], ◌∷◌, ◌++◌, append_assoc, append_nil, map, arith, String, leb, ltb, length, length-take, take,
  get_elem?, is_empty, contains, contains-append, Distinct, Distinct-snoc, All, All-append,
  Bool-cases,
}
use swing_x.Float.{Float}
use swing_x.Core.Genome.{Genome}
use swing_x.Search.Rng.{Rng, below}
use swing_x.Search.Archetypes.{Seen, admit}
use swing_x.Search.Population.{
  SearchConfig, offspring, crossed_pair, first_mutations, crossovers, admit_found, explore, top_up,
  explore_if, top_up_if, pool, next_generation,
}

map-snoc :
    {F : Type 0} (key : Genome F → String) (gs : List (Genome F)) (g : Genome F)
    → map key (gs ++ g ∷ []) ≡ map key gs ++ key g ∷ []
map-snoc key [] g = refl
map-snoc key (h ∷ gs) g = ap (◌∷◌ (key h)) (map-snoc key gs g)

-- What was admitted since `base`: the genomes kept are the old ones and the fresh, whose keys are
-- distinct and new.
pub record Grows {F : Type 0} (key : Genome F → String) (base : List String) (old : List (Genome F))
    (x : Seen F) : Type 0 where
  pub fresh : List (Genome F)
  pub kept : x.1 ≡ old ++ fresh
  pub seen : x.0 ≡ base ++ map key fresh
  pub distinct : Distinct (map key fresh)
  pub unseen : All (λ g. contains base (key g) ≡ false) fresh

module _ {F : Type 0} (key : Genome F → String) (base : List String) (old : List (Genome F)) where
  admit-Grows :
      (g : Genome F) (x : Seen F) → Grows key base old x → Grows key base old (admit key g x)
  admit-Grows g (seen, out) w = elim (Bool-cases (contains seen (key g))) [
    | inl e ↦ rw e w
    | inr e ↦
        let split = sym (contains-append base (map key w.fresh) (key g)) ∙ rw w.seen at e in
        rw e (record {
          fresh = w.fresh ++ g ∷ [];
          kept = ap (λ l. l ++ g ∷ []) w.kept ∙ append_assoc old w.fresh (g ∷ []);
          seen =
              ap (λ l. l ++ key g ∷ []) w.seen
              ∙ (append_assoc base (map key w.fresh) (key g ∷ [])
                  ∙ ap (base ++◌) (sym (map-snoc key w.fresh g)));
          distinct =
              rw (map-snoc key w.fresh g)
                (Distinct-snoc (map key w.fresh) (key g) w.distinct (ground (arith, split)));
          unseen =
              All-append (λ g. contains base (key g) ≡ false) w.fresh (g ∷ []) w.unseen
                (ground (arith, split), tt);
        })
  ]

module _ {F : Type 0} ⦃f : Float F⦄ (signature describe : Genome F → String) (cfg : SearchConfig F)
    (base : List String) (old : List (Genome F)) where
  first_mutations-Grows :
      (per_gen : ℕ) (gs : List (Genome F)) (x : Seen F) (rng : Rng)
      → Grows signature base old x
      → Grows signature base old (first_mutations signature describe cfg per_gen gs x rng).0
  unfolding first_mutations
  first_mutations-Grows per_gen [] x rng w = w
  first_mutations-Grows per_gen (g ∷ gs) x rng w = elim (Bool-cases (leb per_gen (length x.1))) [
    | inl e ↦ rw e w
    | inr e ↦
        let (m, rng') = offspring signature describe cfg g rng in
        rw e (
          first_mutations-Grows per_gen gs (admit signature m x) rng'
            (admit-Grows signature base old m x w))
  ]

  crossovers-Grows :
      (per_gen : ℕ) (gs : List (Genome F)) (x : Seen F) (rng : Rng)
      → Grows signature base old x
      → Grows signature base old (crossovers signature describe cfg per_gen gs x rng).0
  unfolding crossovers
  crossovers-Grows per_gen [] x rng w = w
  crossovers-Grows per_gen (a ∷ []) x rng w = w
  crossovers-Grows per_gen (a ∷ b ∷ gs) x rng w = elim (Bool-cases (leb per_gen (length x.1))) [
    | inl e ↦ rw e w
    | inr e ↦
        let (c, rng') = crossed_pair signature describe cfg a b rng in
        rw e (
          crossovers-Grows per_gen (b ∷ gs) (admit signature c x) rng'
            (admit-Grows signature base old c x w))
  ]

  admit_found-Grows :
      (o : Option (Genome F)) (x : Seen F) (rng : Rng)
      → Grows signature base old x
      → Grows signature base old (admit_found signature describe cfg o x rng).0
  admit_found-Grows none x rng w = w
  admit_found-Grows (some g) x rng w = admit-Grows signature base old _ x w

  explore-Grows :
      (target : ℕ) (gs : List (Genome F)) (attempts : ℕ) (x : Seen F) (rng : Rng)
      → Grows signature base old x
      → Grows signature base old (explore signature describe cfg target gs attempts x rng).0
  unfolding explore
  explore-Grows target gs zero x rng w = w
  explore-Grows target gs (suc attempts) x rng w = elim (Bool-cases (ltb (length x.1) target)) [
    | inl e ↦
        let (i, rng1) = below (length gs) rng in
        let y = admit_found signature describe cfg (get_elem? gs i) x rng1 in
        rw e
          (explore-Grows target gs attempts y.0 y.1 (admit_found-Grows (get_elem? gs i) x rng1 w))
    | inr e ↦ rw e w
  ]

  top_up-Grows :
      (target : ℕ) (gs : List (Genome F)) (x : Seen F) (rng : Rng)
      → Grows signature base old x
      → Grows signature base old (top_up signature describe cfg target gs x rng).0
  unfolding top_up
  top_up-Grows target [] x rng w = w
  top_up-Grows target (g ∷ gs) x rng w = elim (Bool-cases (leb target (length x.1))) [
    | inl e ↦ rw e w
    | inr e ↦ rw e (top_up-Grows target gs _ _ (admit-Grows signature base old _ x w))
  ]

  explore_if-Grows :
      (target : ℕ) (gs : List (Genome F)) (attempts : ℕ) (x : Seen F) (rng : Rng)
      → Grows signature base old x
      → Grows signature base old (explore_if signature describe cfg target gs attempts x rng).0
  explore_if-Grows target gs attempts x rng w =
      elim (Bool-cases (not (is_empty gs) && ltb (length x.1) target)) [
        | inl e ↦ rw e (explore-Grows target gs attempts x rng w)
        | inr e ↦ rw e w
      ]

  top_up_if-Grows :
      (target : ℕ) (x : Seen F) (rng : Rng)
      → Grows signature base old x
      → Grows signature base old (top_up_if signature describe cfg target x rng).0
  top_up_if-Grows target x rng w = elim (Bool-cases (ltb (length x.1) target)) [
    | inl e ↦ rw e (top_up-Grows target _ x _ w)
    | inr e ↦ rw e w
  ]

module _ {F : Type 0} ⦃f : Float F⦄ (signature describe : Genome F → String)
    (cfg : SearchConfig F) where
  pool-Grows :
      (survivors : List (Genome F)) (per_gen : ℕ) (global_seen : List String) (rng : Rng)
      → Grows signature
          (global_seen ++ map signature survivors)
          survivors
          (pool signature describe cfg survivors per_gen global_seen rng).0
  unfolding pool
  pool-Grows survivors per_gen global_seen rng =
      let base = global_seen ++ map signature survivors in
      let start : Grows signature base survivors (base, survivors) = record {
        fresh = [];
        kept = append_nil survivors;
        seen = append_nil base;
        distinct = tt;
        unseen = tt;
      } in
      top_up_if-Grows signature describe cfg base survivors _ _ _ (
        explore_if-Grows signature describe cfg base survivors _ survivors _ _ _ (
          crossovers-Grows signature describe cfg base survivors per_gen survivors _ _ (
            first_mutations-Grows signature describe cfg base survivors per_gen survivors _ _
              start)))

  -- The next generation: the survivors and then fresh genomes, cut to `per_gen`, where the fresh ones have
  -- distinct signatures, none of a survivor nor seen before.
  pub record IsNextGeneration (survivors : List (Genome F)) (per_gen : ℕ)
      (global_seen : List String) (genomes : List (Genome F)) (seen : List String) : Type 0 where
    pub fresh : List (Genome F)
    pub made_of : genomes ≡ take per_gen (survivors ++ fresh)
    pub bounded : length genomes ≤ per_gen
    pub distinct : Distinct (map signature fresh)
    pub unseen :
        All (λ g. contains (global_seen ++ map signature survivors) (signature g) ≡ false) fresh
    pub remembered : seen ≡ global_seen ++ map signature genomes

  -- Whatever the generator draws, a generation has `per_gen` genomes at most: the survivors come first, and
  -- those after them have distinct signatures, which no survivor has and no earlier generation had. The
  -- signatures of the genomes kept, and of no other, are added to those seen.
  pub next_generation-IsNextGeneration :
      (survivors : List (Genome F)) (per_gen : ℕ) (global_seen : List String) (rng : Rng)
      → let (genomes, seen) =
          (next_generation signature describe cfg survivors per_gen global_seen rng).0 in
        IsNextGeneration survivors per_gen global_seen genomes seen
  unfolding next_generation
  next_generation-IsNextGeneration survivors per_gen global_seen rng =
      let x = (pool signature describe cfg survivors per_gen global_seen rng).0 in
      let w = pool-Grows survivors per_gen global_seen rng in
      record {
        fresh = w.fresh;
        made_of = ap (take per_gen) w.kept;
        bounded = omega (arith, length-take per_gen x.1);
        distinct = w.distinct;
        unseen = w.unseen;
        remembered = refl;
      }

-- ===== src/Regime/Gate.antt =====
-- When the classifier withholds a label.
use swing_x.Prelude.{
  ℕ, ◌≡◌, refl, inl, inr, true, not, ◌&&◌, ◌||◌, Option, none, some, List, [], ◌∷◌, map, arith, ltb,
  leb, if◌then◌else◌, all, All, Bool-cases,
}
use swing_x.Float.{Float}
use swing_x.Core.Genome.{Features}
use swing_x.Regime.{
  RegimeLabel, is_tradeable, ClassifierConfig, core_count, out_of_bounds, entries, candidates,
  scores, weigh, share, max_of, sum_of, softmax, insert_ranked, rank, decide, classify_known,
  classify, opposed,
}

module _ {F : Type 0} ⦃f : Float F⦄ where
  -- Every label of the list is tradeable.
  abbrev AllTradeable : List (RegimeLabel × F) → Type 0
  AllTradeable xs = All (λ x. is_tradeable x.0 ≡ true) xs

  entries-AllTradeable :
      (xs : List (RegimeLabel × Option F))
      → All (λ x. is_tradeable x.0 ≡ true) xs
      → AllTradeable (entries xs)
  entries-AllTradeable [] h = tt
  entries-AllTradeable ((label, none) ∷ xs) (e, h) = entries-AllTradeable xs h
  entries-AllTradeable ((label, some s) ∷ xs) (e, h) = (e, entries-AllTradeable xs h)

  scores-AllTradeable :
      (cfg : ClassifierConfig F) (features : Features F) → AllTradeable (scores cfg features)
  unfolding scores candidates
  scores-AllTradeable cfg features =
      entries-AllTradeable (candidates cfg features)
        (refl, (refl, (refl, (refl, (refl, (refl, tt))))))

  -- A function that changes the numbers only.
  map-AllTradeable :
      (h : RegimeLabel × F → RegimeLabel × F) (xs : List (RegimeLabel × F))
      → ((x : RegimeLabel × F) → (h x).0 ≡ x.0)
      → AllTradeable xs
      → AllTradeable (map h xs)
  map-AllTradeable h [] same a = tt
  map-AllTradeable h (x ∷ xs) same (e, a) = (rw (same x) e, map-AllTradeable h xs same a)

  softmax-AllTradeable :
      (exp : F → F) (score : List (RegimeLabel × F)) (temp : F)
      → AllTradeable score
      → AllTradeable (softmax exp score temp)
  unfolding softmax
  softmax-AllTradeable exp score temp a =
      let t = if f.le temp (f.of_ℕ 0) then f.of_ℕ 1 else temp in
      let w = weigh exp (max_of (f.neg f.infinity) score) t in
      map-AllTradeable (share (sum_of (f.of_ℕ 0) (map w score))) (map w score) (λ x. refl)
        (map-AllTradeable w score (λ x. refl) a)

  insert_ranked-AllTradeable :
      (x : RegimeLabel × F) (xs : List (RegimeLabel × F))
      → is_tradeable x.0 ≡ true
      → AllTradeable xs
      → AllTradeable (insert_ranked x xs)
  unfolding insert_ranked
  insert_ranked-AllTradeable x [] e h = (e, tt)
  insert_ranked-AllTradeable x (y ∷ ys) e (h, hs) = elim (Bool-cases (f.lt x.1 y.1)) [
    | inl c ↦ rw c (h, insert_ranked-AllTradeable x ys e hs)
    | inr c ↦ rw c (e, (h, hs))
  ]

  rank-AllTradeable : (xs : List (RegimeLabel × F)) → AllTradeable xs → AllTradeable (rank xs)
  unfolding rank
  rank-AllTradeable [] h = tt
  rank-AllTradeable (x ∷ xs) (e, h) =
      insert_ranked-AllTradeable x (rank xs) e (rank-AllTradeable xs h)

  decide-tradeable :
      (xs : List (RegimeLabel × F)) → AllTradeable xs → is_tradeable (decide xs).0 ≡ true
  decide-tradeable [] h = refl
  decide-tradeable ((l1, p1) ∷ []) (e, h) = e
  decide-tradeable ((l1, p1) ∷ (l2, p2) ∷ more) (e, h) =
      elim (Bool-cases (f.le (f.abs (f.sub p1 p2)) (f.decimal 8 2) && opposed l1 l2)) [
        | inl c ↦ rw c refl
        | inr c ↦ rw c e
      ]

  classify_known-tradeable :
      (exp : F → F) (cfg : ClassifierConfig F) (features : Features F) (n : ℕ)
      → is_tradeable (classify_known exp cfg features n).label ≡ true
  unfolding classify_known
  classify_known-tradeable exp cfg features n =
      let top = decide-tradeable (rank (softmax exp (scores cfg features) cfg.softmax_temp)) (
        rank-AllTradeable _
          (softmax-AllTradeable exp _ cfg.softmax_temp (scores-AllTradeable cfg features))) in
      elim (Bool-cases (all (λ (l, v). f.le v (f.of_ℕ 0)) (scores cfg features))) [
        | inl c ↦ rw c refl
        | inr c ↦ rw c top
      ]

  -- The classifier gives a tradeable label exactly when enough of the core signals are there and finite,
  -- and none of the signals with an envelope is outside it.
  pub classify-is_tradeable :
      (exp : F → F) (cfg : ClassifierConfig F) (features : Features F)
      → is_tradeable (classify exp cfg features).label
        ≡ (leb cfg.min_core_inputs (core_count features) && not (out_of_bounds features))
  unfolding classify
  classify-is_tradeable exp cfg features =
      elim (Bool-cases (ltb (core_count features) cfg.min_core_inputs || out_of_bounds features)) [
        | inl c ↦ rw c (ground arith)
        | inr c ↦ rw c (rw (classify_known-tradeable exp cfg features _) (ground arith))
      ]

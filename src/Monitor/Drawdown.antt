-- ===== src/Monitor/Drawdown.antt =====
-- `max_drawdown` is the deepest point of the equity curve below its running peak.
use swing_x.Prelude.{
  ◌≡◌, refl, sym, ◌⊎◌, inl, inr, false, some, some-injective, List, [], ◌∷◌, arith, if◌then◌else◌,
  All, OneOf, Bool-cases,
}
use swing_x.Float.{Float, IsFloat, ◌≼◌}
use swing_x.Float.Order.{le_of_lt, le_of_not_lt}
use swing_x.Monitor.Stats.{Curve, start, extend, draw, max_drawdown}

module _ {F : Type 0} ⦃f : Float F⦄ where
  -- At each trade, the sum of the results so far less its highest value so far, which is 0 at the start.
  abbrev pub depths : F → F → List F → List F
  depths cum peak [] = []
  depths cum peak (r ∷ rs) =
      let cum' = f.add cum r in
      let peak' = if f.lt peak cum' then cum' else peak in f.sub cum' peak' ∷ depths cum' peak' rs

  -- The first value of the list that no later one is below.
  abbrev pub least : F → List F → F
  least m [] = m
  least m (d ∷ ds) = least (if f.lt d m then d else m) ds

  draw-least :
      (c : Curve F) (rs : List F) → (draw c rs).max_dd ≡ least c.max_dd (depths c.cum c.peak rs)
  unfolding draw extend
  draw-least c [] = refl
  draw-least c (r ∷ rs) = draw-least (extend c r) rs

module _ {F : Type 0} ⦃f : Float F⦄ (laws : IsFloat F) where
  open laws use {number_of_le, le_trans, lt-eq, of_ℕ_mono}

  -- It is one of the values, below the first one, and none is below it.
  pub record IsLeast (m start : F) (ds : List F) : Type 0 where
    pub below_start : m ≼ start
    pub attained : (m ≡ start) ⊎ OneOf m ds
    pub below_all : All (λ d. f.lt d m ≡ false) ds

  not-lt_of_le : (d m : F) → (d ≼ d → m ≼ d) → f.lt d m ≡ false
  not-lt_of_le d m h = elim (Bool-cases (f.lt d m)) [
    | inr e ↦ e
    | inl e ↦
        let below = h (number_of_le d m (le_of_lt laws d m e)).0 in
        ground (arith, lt-eq d m, below, e)
  ]

  least-IsLeast : (m : F) (ds : List F) → m ≼ m → IsLeast (least m ds) m ds
  least-IsLeast m [] h = record { below_start = h; attained = inl refl; below_all = tt }
  least-IsLeast m (d ∷ ds) h = elim (Bool-cases (f.lt d m)) [
    | inl e ↦
        let below = le_of_lt laws d m e in
        let l = least-IsLeast d ds (number_of_le d m below).0 in
        rw e (record {
          below_start = le_trans (least d ds) d m l.below_start below;
          attained = elim l.attained [ inl s ↦ inr (inl (sym s)) | inr o ↦ inr (inr o) ];
          below_all = (not-lt_of_le d (least d ds) (λ n. l.below_start), l.below_all);
        })
    | inr e ↦
        let l = least-IsLeast m ds h in
        rw e (record {
          below_start = l.below_start;
          attained = elim l.attained [ inl s ↦ inl s | inr o ↦ inr (inr o) ];
          below_all = (
            not-lt_of_le d (least m ds)
                (λ n. le_trans (least m ds) m d l.below_start (le_of_not_lt laws d m n h e)),
            l.below_all,
          );
        })
  ]

  -- The drawdown of a list of results is at most 0, it is 0 or one of the depths of the equity curve below
  -- its running peak, and no depth is deeper.
  pub max_drawdown-IsLeast :
      (rs : List F) (m : F)
      → max_drawdown rs ≡ some m
      → IsLeast m (f.of_ℕ 0) (depths (f.of_ℕ 0) (f.of_ℕ 0) rs)
  unfolding max_drawdown
  max_drawdown-IsLeast [] m h = cc
  max_drawdown-IsLeast (r ∷ rs) m h = rw (← some-injective _ _ h) (
      rw (draw-least start (r ∷ rs)) (
        least-IsLeast (f.of_ℕ 0) (depths (f.of_ℕ 0) (f.of_ℕ 0) (r ∷ rs))
          (of_ℕ_mono 0 0 (omega arith))))

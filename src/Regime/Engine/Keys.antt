-- ===== src/Regime/Engine/Keys.antt =====
-- No key stands twice among the regime features, so that the store takes them.
use swing_x.Prelude.{
  ℕ, ◌≡◌, refl, ap, ◌⊎◌, inl, inr, Bool, true, false, Option, none, some, List, [], ◌∷◌, ◌++◌, map,
  any, String, str_eq, str_eq_iff, if◌then◌else◌, contains, Distinct, arith,
}
use swing_x.Store.{Feature, from_feature, same_feature, repeats}
use swing_x.Features.{with_some}

module _ {F : Type 0} where
  -- The features have some of the keys, each once and in their order.
  abbrev pub Within : List String → List (Feature F) → Type 0
  Within [] fs = fs ≡ []
  Within (k ∷ ks) fs =
      Within ks fs
      ⊎ ((x : Feature F) × (rest : List (Feature F)) × (fs ≡ x ∷ rest)
          × (x.key ≡ k)
          × Within ks rest)

pub Within-none : (F : Type 0) (ks : List String) → Within {F = F} ks []
Within-none F [] = refl
Within-none F (k ∷ ks) = inl (Within-none F ks)

module _ {F : Type 0} where
  pub Within-append :
      (ks js : List String) (fs gs : List (Feature F))
      → Within ks fs
      → Within js gs
      → Within (ks ++ js) (fs ++ gs)
  Within-append [] js fs gs h k = rw h k
  Within-append (i ∷ ks) js fs gs (inl h) k = inl (Within-append ks js fs gs h k)
  Within-append (i ∷ ks) js fs gs (inr (x, rest, e, same, h)) k =
      inr (x, rest ++ gs, ap (λ l. l ++ gs) e, same, Within-append ks js rest gs h k)

  pub Within-with_some :
      {A : Type 0} (ks : List String) (o : Option A) (g : A → List (Feature F))
      → ((x : A) → Within ks (g x))
      → Within ks (with_some o g)
  Within-with_some ks none g h = Within-none F ks
  Within-with_some ks (some x) g h = h x

  pub Within-if :
      (ks : List String) (b : Bool) (fs : List (Feature F))
      → Within ks fs
      → Within ks (if b then fs else [])
  Within-if ks true fs h = h
  Within-if ks false fs h = Within-none F ks

  pub Within-unless :
      (ks : List String) (b : Bool) (fs : List (Feature F))
      → Within ks fs
      → Within ks (if b then [] else fs)
  Within-unless ks true fs h = Within-none F ks
  Within-unless ks false fs h = h

  module _ (ticker : String) (ts : ℕ) where
    any-Within :
        (y : Feature F) (ks : List String) (fs : List (Feature F))
        → contains ks y.key ≡ false
        → Within ks fs
        → any (same_feature (from_feature ticker ts y)) (map (from_feature ticker ts) fs) ≡ false
    any-Within y [] fs c h = rw h refl
    any-Within y (k ∷ ks) fs c (inl h) = any-Within y ks fs (ground (arith, c)) h
    any-Within y (k ∷ ks) fs c (inr (x, rest, e, same, h)) =
        let more = any-Within y ks rest (ground (arith, c)) h in
        let differ : str_eq y.key x.key ≡ false =
          ground (arith, c, same, str_eq_iff k y.key, str_eq_iff y.key x.key) in
        rw e (ground (arith, differ, more))

    pub repeats-Within :
        (ks : List String) (fs : List (Feature F))
        → Distinct ks
        → Within ks fs
        → repeats same_feature (map (from_feature ticker ts) fs) ≡ false
    unfolding repeats
    repeats-Within [] fs d h = rw h refl
    repeats-Within (k ∷ ks) fs (c, d) (inl h) = repeats-Within ks fs d h
    repeats-Within (k ∷ ks) fs (c, d) (inr (x, rest, e, same, h)) =
        let one = any-Within x ks rest (rw same c) h in
        let more = repeats-Within ks rest d h in rw e (ground (arith, one, more))

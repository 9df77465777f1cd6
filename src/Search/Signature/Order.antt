-- ===== src/Search/Signature/Order.antt =====
-- The order of the predicates of a genome does not matter to its signature.
use mathlib.Core.List.{Permᴰ}
use swing_x.Prelude.{
  ℕ, ◌≡◌, refl, sym, ap, ◌∙◌, Bool, not, ◌&&◌, List, map, all, is_empty, String, arith,
}
use Prim.Native.String.{◌++◌ as ◌<>◌}
use swing_x.Prelude.TextOrder.{before, before_strict, before_total, before_trans}
use swing_x.Float.{Float}
use swing_x.Core.Genome.{Predicate, Genome, holds_in, fires}
use swing_x.Core.Horizon.{as_str as horizon_text}
use swing_x.Core.Describe.{describe_risk}
use swing_x.Store.Sorted.{order_by-Perm}
use swing_x.Search.Signature.{side_text, token, join, genome_signature}

module _ {A B : Type 0} (g : A → B) where
  Perm-map : {xs ys : List A} → Permᴰ xs ys → Permᴰ (map g xs) (map g ys)
  Perm-map Permᴰ.nil = Permᴰ.nil
  Perm-map (Permᴰ.cons e h) = Permᴰ.cons (ap g e) (Perm-map h)
  Perm-map (Permᴰ.swap e d) = Permᴰ.swap (ap g e) (ap g d)
  Perm-map (Permᴰ.trans h k) = Permᴰ.trans (Perm-map h) (Perm-map k)

module _ {A : Type 0} where
  all-Perm : (p : A → Bool) {xs ys : List A} → Permᴰ xs ys → all p xs ≡ all p ys
  all-Perm p Permᴰ.nil = refl
  all-Perm p (Permᴰ.cons e h) = λ i. p (e i) && all-Perm p h i
  all-Perm p (Permᴰ.swap e d) = ground (arith, ap p e, ap p d)
  all-Perm p (Permᴰ.trans h k) = all-Perm p h ∙ all-Perm p k

  is_empty-Perm : {xs ys : List A} → Permᴰ xs ys → is_empty xs ≡ is_empty ys
  is_empty-Perm Permᴰ.nil = refl
  is_empty-Perm (Permᴰ.cons e h) = refl
  is_empty-Perm (Permᴰ.swap e d) = refl
  is_empty-Perm (Permᴰ.trans h k) = is_empty-Perm h ∙ is_empty-Perm k

module _ {F : Type 0} ⦃f : Float F⦄ (format : ℕ → F → String) where
  -- A genome whose predicates are put in another order has the same signature, and it fires at the same
  -- features.
  pub genome_signature-Perm :
      (g : Genome F) (ps : List (Predicate F)) (features : List (String × F))
      → Permᴰ g.predicates ps
      → (genome_signature format (record g { predicates = ps }) ≡ genome_signature format g)
        × (fires (record g { predicates = ps }) features ≡ fires g features)
  unfolding genome_signature fires
  genome_signature-Perm g ps features h =
      let sorted =
        order_by-Perm before before_strict before_total before_trans (Perm-map (token format) h) in
      (
        ap
            (λ preds.
              side_text g.side
              <> ("::"
                  <> (horizon_text g.horizon
                      <> ("::[" <> (join preds <> ("]::" <> describe_risk format g.risk))))))
            (sym sorted),
        sym (λ i. not (is_empty-Perm h i) && all-Perm (holds_in features) h i),
      )

-- ===== src/Labeler/Slice.antt =====
-- Reading a slice `xs[a..=b]` is reading the list at the same place.
use swing_x.Prelude.{
  ℕ, zero, suc, ◌+◌, ◌-◌, ◌≤◌, ◌<◌, ◌≡◌, refl, some, List, [], ◌∷◌, arith, length, get_elem?, take,
  drop, sym, ◌∙◌,
}
use native.Mathlib.Nat.{zero-add, suc-add}
use swing_x.Labeler.{slice}

module _ {ℓ} {A : Type ℓ} where
  get_elem?-drop : (xs : List A) (a i : ℕ) → get_elem? (drop a xs) i ≡ get_elem? xs (a + i)
  get_elem?-drop xs zero i = rw zero-add
  get_elem?-drop [] (suc a) i = refl
  get_elem?-drop (x ∷ xs) (suc a) i = rw suc-add (get_elem?-drop xs a i)

  get_elem?-take : (xs : List A) (n i : ℕ) → i < n → get_elem? (take n xs) i ≡ get_elem? xs i
  get_elem?-take xs zero i h = absurd (omega arith)
  get_elem?-take [] (suc n) i h = refl
  get_elem?-take (x ∷ xs) (suc n) zero h = refl
  get_elem?-take (x ∷ xs) (suc n) (suc i) h = get_elem?-take xs n i (omega arith)

  get_elem?-take_beyond : (xs : List A) (n i : ℕ) {x : A} → get_elem? (take n xs) i ≡ some x → i < n
  get_elem?-take_beyond xs zero i h = cc
  get_elem?-take_beyond [] (suc n) i h = cc
  get_elem?-take_beyond (x ∷ xs) (suc n) zero h = omega arith
  get_elem?-take_beyond (x ∷ xs) (suc n) (suc i) h = omega (arith, get_elem?-take_beyond xs n i h)

  pub slice-eq_some :
      (xs : List A) (a b : ℕ) {span : List A}
      → slice xs a b ≡ some span
      → (a ≤ b + 1) × (b < length xs) × (span ≡ take (b + 1 - a) (drop a xs))
  slice-eq_some xs a b h = (ground arith, ground arith, ground arith)

  -- A bar of the slice is a bar of the list, inside the bounds.
  pub get_elem?-slice :
      (xs : List A) (a b d : ℕ) (span : List A) {x : A}
      → slice xs a b ≡ some span
      → get_elem? span d ≡ some x
      → (get_elem? xs (a + d) ≡ some x) × (a + d ≤ b)
  get_elem?-slice xs a b d span h g =
      let (bound, inside, e) = slice-eq_some xs a b h in
      let g' = rw e at g in
      let short = get_elem?-take_beyond (drop a xs) (b + 1 - a) d g' in
      (
        sym (get_elem?-drop xs a d) ∙ sym (get_elem?-take (drop a xs) (b + 1 - a) d short) ∙ g',
        omega arith,
      )

  -- And a bar of the list inside the bounds is one of the slice.
  pub get_elem?-slice_of :
      (xs : List A) (a b d : ℕ) (span : List A)
      → slice xs a b ≡ some span
      → a + d ≤ b
      → get_elem? span d ≡ get_elem? xs (a + d)
  get_elem?-slice_of xs a b d span h k =
      let (bound, inside, e) = slice-eq_some xs a b h in
      rw e (get_elem?-take (drop a xs) (b + 1 - a) d (omega arith) ∙ get_elem?-drop xs a d)

  pub slice_of_bounds :
      (xs : List A) (a b : ℕ)
      → a ≤ b + 1
      → b < length xs
      → slice xs a b ≡ some (take (b + 1 - a) (drop a xs))
  slice_of_bounds xs a b h k = ground arith

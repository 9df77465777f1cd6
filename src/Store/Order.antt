-- ===== src/Store/Order.antt =====
-- The sorting that the queries of the store and the leaderboard of the search share.
use swing_x.Prelude.{
  suc, ◌≡◌, refl, ap, ◌∙◌, ◌⊎◌, inl, inr, Bool, true, false, List, [], ◌∷◌, length, All, OneOf,
  Bool-cases,
}
use swing_x.Store.Pit.{insert_sorted, order_by}

module _ {R : Type 0} (higher : R → R → Bool) (P : R → Type 0) where
  All-insert_sorted : (r : R) (qs : List R) → P r → All P qs → All P (insert_sorted higher r qs)
  unfolding insert_sorted
  All-insert_sorted r [] p h = (p, tt)
  All-insert_sorted r (q ∷ qs) p (k, h) = elim (Bool-cases (higher q r)) [
    | inl e ↦ rw e (k, All-insert_sorted r qs p h)
    | inr e ↦ rw e (p, (k, h))
  ]

  pub All-order_by : (rs : List R) → All P rs → All P (order_by higher rs)
  unfolding order_by
  All-order_by [] h = tt
  All-order_by (r ∷ rs) (p, h) = All-insert_sorted r (order_by higher rs) p (All-order_by rs h)

module _ {R : Type 0} (higher : R → R → Bool) where
  length-insert_sorted :
      (r : R) (qs : List R) → length (insert_sorted higher r qs) ≡ suc (length qs)
  unfolding insert_sorted
  length-insert_sorted r [] = refl
  length-insert_sorted r (q ∷ qs) = elim (Bool-cases (higher q r)) [
    | inl e ↦ rw e (ap suc (length-insert_sorted r qs))
    | inr e ↦ rw e refl
  ]

  pub length-order_by : (rs : List R) → length (order_by higher rs) ≡ length rs
  unfolding order_by
  length-order_by [] = refl
  length-order_by (r ∷ rs) =
      length-insert_sorted r (order_by higher rs) ∙ ap suc (length-order_by rs)

  insert_sorted-OneOf :
      (r : R) (qs : List R) (x : R) → (r ≡ x) ⊎ OneOf x qs → OneOf x (insert_sorted higher r qs)
  unfolding insert_sorted
  insert_sorted-OneOf r [] x (inl e) = inl e
  insert_sorted-OneOf r [] x (inr o) = absurd o
  insert_sorted-OneOf r (q ∷ qs) x h = elim (Bool-cases (higher q r)) [
    | inr e ↦ rw e (elim h [ inl s ↦ inl s | inr o ↦ inr o ])
    | inl e ↦ rw e (elim h [
      | inl s ↦ inr (insert_sorted-OneOf r qs x (inl s))
      | inr (inl s) ↦ inl s
      | inr (inr o) ↦ inr (insert_sorted-OneOf r qs x (inr o))
    ])
  ]

  pub order_by-OneOf : (rs : List R) (x : R) → OneOf x rs → OneOf x (order_by higher rs)
  unfolding order_by
  order_by-OneOf [] x o = absurd o
  order_by-OneOf (r ∷ rs) x (inl e) = insert_sorted-OneOf r (order_by higher rs) x (inl e)
  order_by-OneOf (r ∷ rs) x (inr o) =
      insert_sorted-OneOf r (order_by higher rs) x (inr (order_by-OneOf rs x o))

module _ {R : Type 0} (higher : R → R → Bool) where
  -- The first row is not above the one that leads.
  abbrev pub Led : R → List R → Type 0
  Led a [] = Unit
  Led a (b ∷ rs) = higher b a ≡ false

  -- No row is above the one before it.
  abbrev pub IsRanked : List R → Type 0
  IsRanked [] = Unit
  IsRanked (a ∷ rs) = Led a rs × IsRanked rs

  Led-insert_sorted :
      (a r : R) (qs : List R) → Led a qs → higher r a ≡ false → Led a (insert_sorted higher r qs)
  unfolding insert_sorted
  Led-insert_sorted a r [] h k = k
  Led-insert_sorted a r (q ∷ qs) h k = elim (Bool-cases (higher q r)) [
    | inl e ↦ rw e h
    | inr e ↦ rw e k
  ]

  insert_sorted-IsRanked :
      ((a b : R) → higher a b ≡ true → higher b a ≡ false)
      → (r : R) (qs : List R) → IsRanked qs
      → IsRanked (insert_sorted higher r qs)
  unfolding insert_sorted
  insert_sorted-IsRanked strict r [] h = (tt, tt)
  insert_sorted-IsRanked strict r (q ∷ qs) (led, h) = elim (Bool-cases (higher q r)) [
    | inl e ↦
        rw e (Led-insert_sorted q r qs led (strict q r e), insert_sorted-IsRanked strict r qs h)
    | inr e ↦ rw e (e, (led, h))
  ]

  pub order_by-IsRanked :
      ((a b : R) → higher a b ≡ true → higher b a ≡ false)
      → (rs : List R) → IsRanked (order_by higher rs)
  unfolding order_by
  order_by-IsRanked strict [] = tt
  order_by-IsRanked strict (r ∷ rs) =
      insert_sorted-IsRanked strict r (order_by higher rs) (order_by-IsRanked strict rs)

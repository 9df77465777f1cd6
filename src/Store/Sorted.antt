-- ===== src/Store/Sorted.antt =====
-- Sorting by a strict total order gives one list, whatever the order that it starts from.
use mathlib.Core.List.{Permᴰ}
use swing_x.Prelude.{
  ◌≡◌, refl, sym, ap, ◌∙◌, ◌⊎◌, inl, inr, Bool, true, false, List, [], ◌∷◌, Bool-cases,
}
use swing_x.Store.Pit.{insert_sorted, order_by}

module _ {R : Type 0} (higher : R → R → Bool)
    (strict : (a b : R) → higher a b ≡ true → higher b a ≡ false)
    (total : (a b : R) → (higher a b ≡ true) ⊎ ((a ≡ b) ⊎ (higher b a ≡ true)))
    (trans : (a b c : R) → higher a b ≡ true → higher b c ≡ true → higher a c ≡ true) where
  insert_sorted-higher :
      (a b : R) (qs : List R)
      → higher a b ≡ true
      → insert_sorted higher a (insert_sorted higher b qs)
        ≡ insert_sorted higher b (insert_sorted higher a qs)
  unfolding insert_sorted
  insert_sorted-higher a b [] h = let k = strict a b h in rw k (rw h refl)
  insert_sorted-higher a b (q ∷ qs) h =
      let k = strict a b h in
      elim (Bool-cases (higher q a)) [
        | inl e ↦
            let e' = trans q a b e h in
            rw e' (rw e (rw e' (ap (◌∷◌ q) (insert_sorted-higher a b qs h))))
        | inr e ↦ elim (Bool-cases (higher q b)) [
          | inl d ↦ rw d (rw e (rw h (rw d refl)))
          | inr d ↦ rw d (rw e (rw k (rw h (rw d refl))))
        ]
      ]

  insert_sorted_comm :
      (a b : R) (qs : List R)
      → insert_sorted higher a (insert_sorted higher b qs)
        ≡ insert_sorted higher b (insert_sorted higher a qs)
  insert_sorted_comm a b qs = elim (total a b) [
    | inl h ↦ insert_sorted-higher a b qs h
    | inr (inl e) ↦ rw e refl
    | inr (inr h) ↦ sym (insert_sorted-higher b a qs h)
  ]

  pub order_by-Perm : {rs qs : List R} → Permᴰ rs qs → order_by higher rs ≡ order_by higher qs
  unfolding order_by
  order_by-Perm Permᴰ.nil = refl
  order_by-Perm (Permᴰ.cons e h) = λ i. insert_sorted higher (e i) (order_by-Perm h i)
  order_by-Perm (Permᴰ.swap {a = a} {b = b} {l = l} e d) =
      insert_sorted_comm a b (order_by higher l)
      ∙ (λ i. insert_sorted higher (d i) (insert_sorted higher (e i) (order_by higher l)))
  order_by-Perm (Permᴰ.trans h k) = order_by-Perm h ∙ order_by-Perm k

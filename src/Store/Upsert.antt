-- ===== src/Store/Upsert.antt =====
-- The upserts of crates/se-store/src/store.rs: the chunks cover the batch, and doing it again changes nothing.
use swing_x.Prelude.{
  ℕ, zero, suc, ◌+◌, ◌-◌, ◌≤◌, ◌≡◌, refl, sym, ap, ◌∙◌, ◌⊎◌, Bool, true, false, ◌||◌, List, [], ◌∷◌,
  ◌++◌, length, take, drop, any, length-append, arith,
}
use swing_x.Prelude.Results.{ok}
use swing_x.Store.{upsert, upsert_all, repeats, execute, add_count, and_then, in_chunks}

take-drop : {R : Type 0} (n : ℕ) (rs : List R) → take n rs ++ drop n rs ≡ rs
take-drop zero rs = refl
take-drop (suc n) [] = refl
take-drop (suc n) (r ∷ rs) = ap (◌∷◌ r) (take-drop n rs)

length-drop : {R : Type 0} (n : ℕ) (rs : List R) → length (drop n rs) ≡ length rs - n
length-drop zero rs = omega arith
length-drop (suc n) [] = omega arith
length-drop (suc n) (r ∷ rs) = omega (arith, length-drop n rs)

module _ {R : Type 0} (same : R → R → Bool) where
  any-append : (p : R → Bool) (xs ys : List R) → any p (xs ++ ys) ≡ (any p xs || any p ys)
  any-append p [] ys = refl
  any-append p (x ∷ xs) ys = ground (arith, any-append p xs ys)

  -- No row of either part repeats one of it.
  repeats-append :
      (xs ys : List R)
      → repeats same (xs ++ ys) ≡ false
      → (repeats same xs ≡ false) × (repeats same ys ≡ false)
  unfolding repeats
  repeats-append [] ys h = (refl, h)
  repeats-append (x ∷ xs) ys h =
      let both : (any (same x) xs ≡ false) × (repeats same (xs ++ ys) ≡ false) =
        ground (arith, any-append (same x) xs ys) in
      let (here, there) = both in
      let (left, right) = repeats-append xs ys there in (ground arith, right)

  upsert_all-append :
      (xs ys table : List R)
      → upsert_all same (xs ++ ys) table ≡ upsert_all same ys (upsert_all same xs table)
  unfolding upsert_all
  upsert_all-append [] ys table = refl
  upsert_all-append (x ∷ xs) ys table = upsert_all-append xs ys (upsert same x table)

  execute-ok :
      (rows table : List R)
      → repeats same rows ≡ false
      → execute same rows table ≡ (upsert_all same rows table, ok (length rows))
  unfolding execute
  execute-ok rows table h = rw h refl

  -- The chunks of a batch without repeated rows all succeed, and together they are the batch.
  pub in_chunks-ok :
      (size left : ℕ) (rows table : List R)
      → 1 ≤ size
      → length rows ≤ left
      → repeats same rows ≡ false
      → in_chunks same size left rows table ≡ (upsert_all same rows table, ok (length rows))
  unfolding in_chunks upsert_all
  in_chunks-ok size zero [] table big enough h = refl
  in_chunks-ok size zero (r ∷ rs) table big enough h = absurd (omega arith)
  in_chunks-ok size (suc left) [] table big enough h = refl
  in_chunks-ok size (suc left) (r ∷ rs) table big enough h =
      let rows = r ∷ rs in
      let split = take-drop size rows in
      let (first, rest) = repeats-append (take size rows) (drop size rows) (rw split h) in
      let table1 = upsert_all same (take size rows) table in
      let later =
        in_chunks-ok size left (drop size rows) table1 big (omega (arith, length-drop size rows))
          rest in
      let whole : upsert_all same (drop size rows) table1 ≡ upsert_all same rows table =
        sym (upsert_all-append (take size rows) (drop size rows) table)
        ∙ ap (λ l. upsert_all same l table) split in
      let count : length (take size rows) + length (drop size rows) ≡ length rows =
        sym (length-append (take size rows) (drop size rows)) ∙ ap length split in
      ap (λ x. and_then same x (in_chunks same size left (drop size rows)))
        (execute-ok (take size rows) table first)
      ∙ (ap (add_count same (length (take size rows))) later ∙ λ i. (whole i, ok (count i)))

  -- The first row with the key of `r` is `r` itself.
  Found : R → List R → Type 0
  Found r [] = ⊥
  Found r (q ∷ qs) = ((same r q ≡ true) × (q ≡ r)) ⊎ ((same r q ≡ false) × Found r qs)

-- ===== src/Search/Backtest/Dataset.antt =====
-- The dataset of a genome: in the order of its entry times, and clear of the reserved era.
use swing_x.Prelude.{
  ℕ, ◌≤◌, ◌≡◌, refl, inl, inr, false, some, List, [], ◌∷◌, length, arith, leb, All, All-map,
  All-append, Bool-cases,
}
use swing_x.Float.{Float}
use swing_x.Core.Horizon.{HorizonProfile}
use swing_x.Core.Genome.{Genome}
use swing_x.Search.Backtest.{
  FeatureWindow, backtest, assemble, insert_row, sort_rows, collect, build_dataset,
}
use swing_x.Search.Firewall.{DatasetRow, overlaps, purge_era, firewall_test_era}

module _ {F : Type 0} where
  -- Each row is not before the one that it follows.
  abbrev pub IsAscending : List (DatasetRow F) → Type 0
  IsAscending [] = Unit
  IsAscending (r ∷ rs) = All (λ q. r.ts ≤ q.ts) rs × IsAscending rs

  All-purge_era :
      (from to : ℕ) (rows : List (DatasetRow F))
      → All (λ r. overlaps from to r ≡ false) (purge_era from to rows).0
  unfolding purge_era
  All-purge_era from to [] = tt
  All-purge_era from to (r ∷ rs) = elim (Bool-cases (overlaps from to r)) [
    | inl e ↦ rw e (All-purge_era from to rs)
    | inr e ↦ rw e (e, All-purge_era from to rs)
  ]

module _ {F : Type 0} ⦃f : Float F⦄ (exp : F → F) where
  All-insert_row :
      (P : DatasetRow F → Type 0) (r : DatasetRow F) (qs : List (DatasetRow F))
      → P r
      → All P qs
      → All P (insert_row exp r qs)
  unfolding insert_row
  All-insert_row P r [] p h = (p, tt)
  All-insert_row P r (q ∷ qs) p (k, h) = elim (Bool-cases (leb r.ts q.ts)) [
    | inl e ↦ rw e (p, (k, h))
    | inr e ↦ rw e (k, All-insert_row P r qs p h)
  ]

  All-sort_rows :
      (P : DatasetRow F → Type 0) (rs : List (DatasetRow F)) → All P rs → All P (sort_rows exp rs)
  unfolding sort_rows
  All-sort_rows P [] h = tt
  All-sort_rows P (r ∷ rs) (p, h) = All-insert_row P r (sort_rows exp rs) p (All-sort_rows P rs h)

  insert_row-IsAscending :
      (r : DatasetRow F) (qs : List (DatasetRow F))
      → IsAscending qs
      → IsAscending (insert_row exp r qs)
  unfolding insert_row
  insert_row-IsAscending r [] h = (tt, tt)
  insert_row-IsAscending r (q ∷ qs) (first, h) = elim (Bool-cases (leb r.ts q.ts)) [
    | inl e ↦
        let before : r.ts ≤ q.ts = ground (arith, e) in
        rw e (
          (before, All-map (λ x. q.ts ≤ x.ts) (λ x. r.ts ≤ x.ts) qs (λ x le. omega arith) first),
          (first, h),
        )
    | inr e ↦ rw e (
      All-insert_row (λ x. q.ts ≤ x.ts) r qs (ground (arith, e)) first,
      insert_row-IsAscending r qs h,
    )
  ]

  sort_rows-IsAscending : (rs : List (DatasetRow F)) → IsAscending (sort_rows exp rs)
  unfolding sort_rows
  sort_rows-IsAscending [] = tt
  sort_rows-IsAscending (r ∷ rs) =
      insert_row-IsAscending r (sort_rows exp rs) (sort_rows-IsAscending rs)

  All-collect :
      (genome : Genome F) (profile : HorizonProfile F) (from to : ℕ) (ws : List (FeatureWindow F))
      → All (λ r. overlaps from to r ≡ false) (collect exp genome profile (some (from, to)) ws)
  unfolding collect firewall_test_era
  All-collect genome profile from to [] = tt
  All-collect genome profile from to (w ∷ ws) =
      All-append (λ r. overlaps from to r ≡ false) _ _
        (All-purge_era from to (assemble exp (backtest exp genome w profile)))
        (All-collect genome profile from to ws)

  -- The dataset of a genome is in the order of its entry times, as the writer of the Parquet file needs it,
  -- and no row of it reaches into the reserved era; its size is reported as it is.
  pub build_dataset-IsAscending :
      (genome : Genome F) (profile : HorizonProfile F) (from to : ℕ) (ws : List (FeatureWindow F))
      → let (rows, n) = build_dataset exp genome profile (some (from, to)) ws in
        IsAscending rows × All (λ r. overlaps from to r ≡ false) rows × (n ≡ length rows)
  unfolding build_dataset
  build_dataset-IsAscending genome profile from to ws =
      let rows = collect exp genome profile (some (from, to)) ws in
      (
        sort_rows-IsAscending rows,
        All-sort_rows (λ r. overlaps from to r ≡ false) rows
            (All-collect genome profile from to ws),
        refl,
      )

-- ===== src/Search/Firewall.antt =====
-- The test-era firewall and the survivors of crates/se-search/src/population.rs, with `DatasetRow` of
-- crates/se-mlclient/src/dataset.rs. Instants are numbers.
use swing_x.Prelude.{
  ℕ, suc, ◌+◌, ◌≤◌, ◌≡◌, sym, ◌∙◌, ◌↔◌, inl, inr, Bool, true, false, ◌&&◌, Option, none, some, List,
  [], ◌∷◌, String, arith, length, leb, if◌then◌else◌, OneOf, Bool-cases,
}

pub record DatasetRow (F : Type 0) : Type 0 where
  pub ts : ℕ
  pub t1 : ℕ
  pub label : F
  pub regime : Option String
  pub features : List (String × F)

module _ {F : Type 0} where
  abbrev pub overlaps : ℕ → ℕ → DatasetRow F → Bool
  overlaps from to row = leb row.ts to && leb from row.t1

  unfoldable pub purge_era : ℕ → ℕ → List (DatasetRow F) → List (DatasetRow F) × ℕ
  purge_era from to [] = ([], 0)
  purge_era from to (row ∷ rows) =
      let (kept, purged) = purge_era from to rows in
      if overlaps from to row then (kept, suc purged) else (row ∷ kept, purged)

  unfoldable pub firewall_test_era : List (DatasetRow F) → Option (ℕ × ℕ) → List (DatasetRow F) × ℕ
  firewall_test_era rows none = (rows, 0)
  firewall_test_era rows (some (from, to)) = purge_era from to rows

  purge_era-length :
      (from to : ℕ) (rows : List (DatasetRow F))
      → length (purge_era from to rows).0 + (purge_era from to rows).1 ≡ length rows
  unfolding purge_era
  purge_era-length from to [] = omega arith
  purge_era-length from to (row ∷ rows) = elim (Bool-cases (overlaps from to row)) [
    | inl e ↦ rw e (omega (arith, purge_era-length from to rows))
    | inr e ↦ rw e (omega (arith, purge_era-length from to rows))
  ]

  purge_era-OneOf :
      (from to : ℕ) (rows : List (DatasetRow F)) (row : DatasetRow F)
      → OneOf row (purge_era from to rows).0
      → OneOf row rows × (overlaps from to row ≡ false)
  unfolding purge_era
  purge_era-OneOf from to [] row h = absurd h
  purge_era-OneOf from to (r ∷ rows) row h = elim (Bool-cases (overlaps from to r)) [
    | inl e ↦ let (o, c) = purge_era-OneOf from to rows row (rw e at h) in (inr o, c)
    | inr e ↦ elim (rw e at h) [
      | inl same ↦ (inl same, rw same at e)
      | inr more ↦ let (o, c) = purge_era-OneOf from to rows row more in (inr o, c)
    ]
  ]

  purge_era-kept :
      (from to : ℕ) (rows : List (DatasetRow F)) (row : DatasetRow F)
      → OneOf row rows
      → overlaps from to row ≡ false
      → OneOf row (purge_era from to rows).0
  unfolding purge_era
  purge_era-kept from to [] row h c = absurd h
  purge_era-kept from to (r ∷ rows) row h c = elim (Bool-cases (overlaps from to r)) [
    | inl e ↦ elim h [
      | inl same ↦ absurd (cc (sym (rw same at e) ∙ c))
      | inr more ↦ rw e (purge_era-kept from to rows row more c)
    ]
    | inr e ↦ elim h [
      | inl same ↦ rw e (inl same)
      | inr more ↦ rw e (inr (purge_era-kept from to rows row more c))
    ]
  ]

  -- An instant of the span of a row that is one of the era.
  abbrev pub Touches : ℕ → ℕ → DatasetRow F → Type 0
  Touches from to row = (t : ℕ) × (row.ts ≤ t) × (t ≤ row.t1) × (from ≤ t) × (t ≤ to)

  overlaps-Touches :
      (from to : ℕ) (row : DatasetRow F)
      → from ≤ to
      → row.ts ≤ row.t1
      → overlaps from to row ≡ true
      → Touches from to row
  overlaps-Touches from to row era span h = elim (Bool-cases (leb row.ts from)) [
    | inl e ↦ (from, ground arith, ground arith, omega arith, era)
    | inr e ↦ (row.ts, omega arith, span, ground arith, ground arith)
  ]

  Touches-overlaps :
      (from to : ℕ) (row : DatasetRow F) → Touches from to row → overlaps from to row ≡ true
  Touches-overlaps from to row (t, a, b, c, d) = ground arith

  -- The firewall keeps of each row exactly those whose span from entry to resolution shares no instant with
  -- the reserved era, where the era and the spans run forwards, and it counts the rest.
  pub firewall_test_era_iff :
      (rows : List (DatasetRow F)) (from to : ℕ) (row : DatasetRow F)
      → from ≤ to
      → row.ts ≤ row.t1
      → let (kept, purged) = firewall_test_era rows (some (from, to)) in
        (OneOf row kept ↔ (OneOf row rows × ¬ Touches from to row))
        × (length kept + purged ≡ length rows)
  unfolding firewall_test_era
  firewall_test_era_iff rows from to row era span = (
    (
      λ o.
          let (here, clear) = purge_era-OneOf from to rows row o in
          (here, λ touch. cc (sym (Touches-overlaps from to row touch) ∙ clear)),
      λ (here, clear). elim (Bool-cases (overlaps from to row)) [
        | inl e ↦ absurd (clear (overlaps-Touches from to row era span e))
        | inr e ↦ purge_era-kept from to rows row here e
      ],
    ),
    purge_era-length from to rows,
  )

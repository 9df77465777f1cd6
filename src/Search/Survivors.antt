-- ===== src/Search/Survivors.antt =====
-- `select_survivors` of crates/se-search/src/population.rs, on the rows of the strategies' statuses.
use swing_x.Prelude.{
  ℕ, ◌≡◌, refl, ◌⊎◌, inl, inr, Bool, true, false, Option, none, some, List, [], ◌∷◌, map, arith,
  ◌==◌, if◌then◌else◌, OneOf, Bool-cases,
}
use swing_x.Float.{Float}
use swing_x.Core.Genome.{Genome, StrategyStatus}
use swing_x.Monitor.Store.{StrategyRow, set_row, is_promoted}
use swing_x.Search.Score.{OosScore, Evaluated, promotable, survives}

abbrev pub update_status : ℕ → StrategyStatus → List StrategyRow → List StrategyRow
update_status id status rows = map (set_row id status) rows

module _ {F : Type 0} where
  abbrev pub is_scored : Option (OosScore F) → Bool
  is_scored none = false
  is_scored (some s) = true

module _ {F : Type 0} ⦃f : Float F⦄ where
  -- What one member does to the rows, and whether it is carried forward.
  unfoldable pub select_one : Evaluated F → List StrategyRow → Bool × List StrategyRow
  select_one ev rows =
      if promotable ev
      then (true, update_status ev.strategy.id StrategyStatus.promoted rows)
      else if survives ev
      then (true, rows)
      else if is_scored ev.score
      then (false, update_status ev.strategy.id StrategyStatus.retired rows)
      else (false, rows)

  unfoldable pub select_survivors :
      List (Evaluated F) → List StrategyRow → List (Genome F) × List StrategyRow
  select_survivors [] rows = ([], rows)
  select_survivors (ev ∷ evs) rows =
      let (keep, rows1) = select_one ev rows in
      let (survivors, rows2) = select_survivors evs rows1 in
      (if keep then ev.strategy.genome ∷ survivors else survivors, rows2)

update_status-OneOf :
    (id : ℕ) (status : StrategyStatus) (rows : List StrategyRow) (row : StrategyRow)
    → OneOf row (update_status id status rows)
    → OneOf row rows ⊎ ((row.strategy_id ≡ id) × (row.status ≡ status))
update_status-OneOf id status [] row h = absurd h
update_status-OneOf id status (r ∷ rows) row (inr h) =
    elim (update_status-OneOf id status rows row h) [ inl o ↦ inl (inr o) | inr e ↦ inr e ]
update_status-OneOf id status (r ∷ rows) row (inl h) = elim (Bool-cases (r.strategy_id == id)) [
  | inr e ↦ inl (inl (rw e at h))
  | inl e ↦ let same = rw e at h in inr (rw (← same) (ground arith, refl))
]

module _ {F : Type 0} ⦃f : Float F⦄ where
  -- A member of the list that may be promoted, with the identity of the row.
  abbrev pub Promotes : List (Evaluated F) → StrategyRow → Type 0
  Promotes evs row =
      (ev : Evaluated F) × OneOf ev evs
      × (promotable ev ≡ true)
      × (row.strategy_id ≡ ev.strategy.id)

  select_one-promoted :
      (ev : Evaluated F) (rows : List StrategyRow) (row : StrategyRow)
      → OneOf row (select_one ev rows).1
      → is_promoted row.status ≡ true
      → OneOf row rows ⊎ ((promotable ev ≡ true) × (row.strategy_id ≡ ev.strategy.id))
  unfolding select_one
  select_one-promoted ev rows row h p = elim (Bool-cases (promotable ev)) [
    | inl e ↦
        elim (update_status-OneOf ev.strategy.id StrategyStatus.promoted rows row (rw e at h)) [
          | inl o ↦ inl o
          | inr (same, s) ↦ inr (e, same)
        ]
    | inr e ↦ elim (Bool-cases (survives ev)) [
      | inl e1 ↦ inl (rw e1 at (rw e at h))
      | inr e1 ↦ elim (Bool-cases (is_scored ev.score)) [
        | inr e2 ↦ inl (rw e2 at (rw e1 at (rw e at h)))
        | inl e2 ↦
            elim (update_status-OneOf ev.strategy.id StrategyStatus.retired rows row
              (rw e2 at (rw e1 at (rw e at h)))) [
                | inl o ↦ inl o
                | inr (same, s) ↦ absurd (cc (rw s at p))
              ]
      ]
    ]
  ]

  -- A strategy that is promoted after the selection was promoted before it, or belongs to a member that
  -- may be promoted.
  pub select_survivors-promoted :
      (evs : List (Evaluated F)) (rows : List StrategyRow) (row : StrategyRow)
      → OneOf row (select_survivors evs rows).1
      → is_promoted row.status ≡ true
      → OneOf row rows ⊎ Promotes evs row
  unfolding select_survivors
  select_survivors-promoted [] rows row h p = inl h
  select_survivors-promoted (ev ∷ evs) rows row h p =
      elim (select_survivors-promoted evs (select_one ev rows).1 row h p) [
        | inr (q, o, e, same) ↦ inr (q, inr o, e, same)
        | inl o ↦ elim (select_one-promoted ev rows row o p) [
          | inl here ↦ inl here
          | inr (e, same) ↦ inr (ev, inl refl, e, same)
        ]
      ]

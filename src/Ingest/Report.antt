-- ===== src/Ingest/Report.antt =====
-- What the report of an ingestion says of each series.
use mathlib.Core.List.{append_assoc, map-append}
use swing_x.Prelude.Lists.{append_nil}
use swing_x.Prelude.{
  ℕ, ◌≡◌, refl, ap, ◌∙◌, inl, inr, ◌⊎◌, Bool, not, Option, List, [], ◌∷◌, ◌++◌, map, String,
  keep_if, is_empty, Bool-cases,
}
use swing_x.Prelude.Results.{Result, ok, err}
use swing_x.Store.{StoreError, Tables, upsert_macro}
use swing_x.Ingest.{
  MacroSeries, MacroPoint, MacroIngestReport, DataProvider, all_series, as_str, preferred_source,
  points_of, select_provider, mark_unavailable, mark_stored, map_point, count_stored, continue,
  ingest_series, ingest_macro,
}

abbrev names_stored : MacroIngestReport → List String
names_stored r = map (λ (k, n). k) r.stored

-- The later report has these names more.
abbrev Adds : MacroIngestReport → List String → List String → MacroIngestReport → Type 0
Adds r stored unavailable r' =
    (names_stored r' ≡ names_stored r ++ stored) × (r'.unavailable ≡ r.unavailable ++ unavailable)

Adds-unavailable :
    (s : MacroSeries) (r r' : MacroIngestReport) (ks js : List String)
    → Adds (mark_unavailable s r) ks js r'
    → Adds r ks (as_str s ∷ js) r'
Adds-unavailable s r r' ks js (h, k) = (h, k ∙ append_assoc r.unavailable (as_str s ∷ []) js)

Adds-stored :
    (s : MacroSeries) (n : ℕ) (r r' : MacroIngestReport) (ks js : List String)
    → Adds (mark_stored s n r) ks js r'
    → Adds r (as_str s ∷ ks) js r'
Adds-stored s n r r' ks js (h, k) = (
  h
      ∙ (ap (λ l. l ++ ks) (map-append (λ (k, n). k) r.stored ((as_str s, n) ∷ []))
          ∙ append_assoc (names_stored r) (as_str s ∷ []) ks),
  k,
)

module _ {F : Type 0} (fetched : MacroSeries → List (MacroPoint F)) where
  abbrev is_available : MacroSeries → Bool
  is_available s = not (is_empty (fetched s))

  abbrev is_missing : MacroSeries → Bool
  is_missing s = is_empty (fetched s)

  -- The store refused the rows of a series.
  abbrev IsRefused : Result StoreError MacroIngestReport → Type 0
  IsRefused done =
      (why : StoreError) × (s : MacroSeries) × (db : Tables F) × ((upsert_macro
          (map map_point (fetched s)) db).1
        ≡ err why)
      × (done ≡ err why)

  abbrev IsReported :
      MacroIngestReport → List String → List String → Result StoreError MacroIngestReport → Type 0
  IsReported r ks js done = (r' : MacroIngestReport) × (done ≡ ok r') × Adds r ks js r'

  continue-IsReported :
      (s : MacroSeries) (r : MacroIngestReport) (ks js : List String)
      (rest : MacroIngestReport → Tables F → Result StoreError MacroIngestReport × Tables F)
      (db0 : Tables F) (wrote : Tables F × Result StoreError ℕ)
      → upsert_macro (map map_point (fetched s)) db0 ≡ wrote
      → ((q : MacroIngestReport) (db : Tables F)
          → IsRefused (rest q db).0 ⊎ IsReported q ks js (rest q db).0)
      → IsRefused (continue (count_stored s r wrote) rest).0
        ⊎ IsReported r (as_str s ∷ ks) js (continue (count_stored s r wrote) rest).0
  continue-IsReported s r ks js rest db0 (db, err e) h ih = inl (e, s, db0, ap (λ w. w.1) h, refl)
  continue-IsReported s r ks js rest db0 (db, ok n) h ih = elim (ih (mark_stored s n r) db) [
    | inl refused ↦ inl refused
    | inr (r', e, a) ↦ inr (r', e, Adds-stored s n r r' ks js a)
  ]

  pub ingest_series-IsReported :
      (ss : List MacroSeries) (r : MacroIngestReport) (db : Tables F)
      → IsRefused (ingest_series fetched ss r db).0
        ⊎ IsReported r
            (map as_str (keep_if is_available ss))
            (map as_str (keep_if is_missing ss))
            (ingest_series fetched ss r db).0
  unfolding ingest_series
  ingest_series-IsReported [] r db = inr (r, refl, (append_nil _, append_nil _))
  ingest_series-IsReported (s ∷ ss) r db = elim (Bool-cases (is_empty (fetched s))) [
    | inl e ↦ rw e (elim (ingest_series-IsReported ss (mark_unavailable s r) db) [
      | inl refused ↦ inl refused
      | inr (r', h, a) ↦ inr (r', h, Adds-unavailable s r r' _ _ a)
    ])
    | inr e ↦ rw e (
        continue-IsReported s r _ _ (ingest_series fetched ss) db _ refl
          (ingest_series-IsReported ss))
  ]

-- The run ends with a refusal of the store, or with a report of what was fetched.
abbrev pub IsIngested :
    {F : Type 0}
    → (MacroSeries → List (MacroPoint F))
    → Result StoreError MacroIngestReport
    → Type 0
IsIngested fetched done =
    IsRefused fetched done
    ⊎ ((r : MacroIngestReport) × (done ≡ ok r)
        × (names_stored r ≡ map as_str (keep_if (is_available fetched) all_series))
        × (r.unavailable ≡ map as_str (keep_if (is_missing fetched) all_series)))

abbrev nothing : MacroIngestReport
nothing = record { stored = []; unavailable = [] }

IsIngested-from_nothing :
    {P : Type 0} (ks js : List String) (done : Result StoreError MacroIngestReport)
    → P ⊎ ((r : MacroIngestReport) × (done ≡ ok r) × Adds nothing ks js r)
    → P ⊎ ((r : MacroIngestReport) × (done ≡ ok r) × (names_stored r ≡ ks) × (r.unavailable ≡ js))
IsIngested-from_nothing ks js done (inl refused) = inl refused
IsIngested-from_nothing ks js done (inr (r, h, (a, b))) = inr (r, h, a, b)

-- Whatever the providers answer, and whether they are configured, an ingestion of the macro series fails only where
-- the store refuses the rows of a series; otherwise it reports, in the order of the series, as stored those for
-- which the preferred provider gave points, and as unavailable all others.
pub ingest_macro-IsIngested :
    {E F : Type 0} (with_fmp with_fred : Option (DataProvider E F)) (from to : ℕ) (db : Tables F)
    → IsIngested
        (λ s. points_of (select_provider with_fmp with_fred (preferred_source s)) s from to)
        (ingest_macro with_fmp with_fred from to db).0
unfolding ingest_macro
ingest_macro-IsIngested with_fmp with_fred from to db = IsIngested-from_nothing _ _ _ (
    ingest_series-IsReported
      (λ s. points_of (select_provider with_fmp with_fred (preferred_source s)) s from to)
      all_series nothing db)

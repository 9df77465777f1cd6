-- ===== src/Ingest.antt =====
-- The ingestion of crates/se-cli/src/ingest.rs, with the series of crates/se-provider/src/types.rs. What a provider
-- answers to a request is a parameter.
pub mod Report
pub mod Tests
use swing_x.Prelude.{
  ℕ, ◌+◌, Bool, true, false, not, Option, none, some, List, [], ◌∷◌, ◌++◌, map, String,
  if◌then◌else◌, is_empty,
}
use swing_x.Prelude.Results.{Result, ok, err}
use swing_x.Core.Market.{Bar}
use swing_x.Store.{LeadTimeTag, MacroWrite, StoreError, Tables, upsert_bars, upsert_macro}

pub data MacroSeries : Type 0 where
  vix vix9d vix3m vvix skew ust2y ust10y dxy gold oil copper : MacroSeries
  hy_oas ig_oas fed_balance_sheet tga reverse_repo : MacroSeries

abbrev pub all_series : List MacroSeries
all_series =
    vix ∷ vix9d ∷ vix3m ∷ vvix ∷ skew ∷ ust2y ∷ ust10y ∷ dxy ∷ gold ∷ oil ∷ copper ∷ hy_oas ∷ ig_oas
    ∷ fed_balance_sheet ∷ tga ∷ reverse_repo ∷ []

abbrev pub as_str : MacroSeries → String
as_str vix = "vix"
as_str vix9d = "vix9d"
as_str vix3m = "vix3m"
as_str vvix = "vvix"
as_str skew = "skew"
as_str ust2y = "ust2y"
as_str ust10y = "ust10y"
as_str dxy = "dxy"
as_str gold = "gold"
as_str oil = "oil"
as_str copper = "copper"
as_str hy_oas = "hy_oas"
as_str ig_oas = "ig_oas"
as_str fed_balance_sheet = "fed_balance_sheet"
as_str tga = "tga"
as_str reverse_repo = "reverse_repo"

pub data ProviderKind : Type 0 where
  mock fmp fred proprietary : ProviderKind

abbrev pub preferred_source : MacroSeries → ProviderKind
preferred_source hy_oas = fred
preferred_source ig_oas = fred
preferred_source fed_balance_sheet = fred
preferred_source tga = fred
preferred_source reverse_repo = fred
preferred_source _ = fmp

pub record MacroPoint (F : Type 0) : Type 0 where
  pub series : MacroSeries
  pub ts : ℕ
  pub value : F
  pub as_of : ℕ
  pub lead_time : LeadTimeTag
  pub source : String

-- `DataProvider`, as far as the ingestion calls it.
pub record DataProvider (E F : Type 0) : Type 0 where
  pub daily_bars : String → ℕ → ℕ → Result E (List (Bar F))
  pub macro_series : MacroSeries → ℕ → ℕ → Result E (List (MacroPoint F))

pub record MacroIngestReport : Type 0 where
  pub stored : List (String × ℕ)
  pub unavailable : List String

abbrev pub mark_unavailable : MacroSeries → MacroIngestReport → MacroIngestReport
mark_unavailable s r = record r { unavailable = r.unavailable ++ as_str s ∷ [] }

abbrev pub mark_stored : MacroSeries → ℕ → MacroIngestReport → MacroIngestReport
mark_stored s n r = record r { stored = r.stored ++ (as_str s, n) ∷ [] }

module _ {F : Type 0} where
  abbrev pub map_point : MacroPoint F → MacroWrite F
  map_point p = record {
    series = as_str p.series;
    ts = p.ts;
    as_of = p.as_of;
    value = p.value;
    lead_time = p.lead_time;
    source = p.source;
  }

  abbrev pub count_stored :
      MacroSeries
      → MacroIngestReport
      → Tables F × Result StoreError ℕ
      → Result StoreError MacroIngestReport × Tables F
  count_stored s r (db, err e) = (err e, db)
  count_stored s r (db, ok n) = (ok (mark_stored s n r), db)

  abbrev pub ingest_one :
      MacroSeries
      → List (MacroPoint F)
      → MacroIngestReport
      → Tables F
      → Result StoreError MacroIngestReport × Tables F
  ingest_one s points r db =
      if is_empty points
      then (ok (mark_unavailable s r), db)
      else count_stored s r (upsert_macro (map map_point points) db)

  -- The first failure of the store ends the run.
  abbrev pub continue :
      Result StoreError MacroIngestReport × Tables F
      → (MacroIngestReport → Tables F → Result StoreError MacroIngestReport × Tables F)
      → Result StoreError MacroIngestReport × Tables F
  continue (err e, db) rest = (err e, db)
  continue (ok r, db) rest = rest r db

  unfoldable pub ingest_series :
      (MacroSeries → List (MacroPoint F))
      → List MacroSeries
      → MacroIngestReport
      → Tables F
      → Result StoreError MacroIngestReport × Tables F
  ingest_series fetched [] r db = (ok r, db)
  ingest_series fetched (s ∷ more) r db =
      continue (ingest_one s (fetched s) r db) (ingest_series fetched more)

module _ {E F : Type 0} where
  abbrev pub select_provider :
      Option (DataProvider E F)
      → Option (DataProvider E F)
      → ProviderKind
      → Option (DataProvider E F)
  select_provider with_fmp with_fred ProviderKind.fmp = with_fmp
  select_provider with_fmp with_fred ProviderKind.fred = with_fred
  select_provider with_fmp with_fred _ = none

  -- What is fetched of a series: nothing where there is no provider for it, or where it fails.
  abbrev pub points_of : Option (DataProvider E F) → MacroSeries → ℕ → ℕ → List (MacroPoint F)
  points_of none s from to = []
  points_of (some provider) s from to = elim (provider.macro_series s from to) [
    | err e ↦ []
    | ok points ↦ points
  ]

  unfoldable pub ingest_macro :
      Option (DataProvider E F)
      → Option (DataProvider E F)
      → ℕ
      → ℕ
      → Tables F
      → Result StoreError MacroIngestReport × Tables F
  ingest_macro with_fmp with_fred from to db =
      ingest_series
        (λ s. points_of (select_provider with_fmp with_fred (preferred_source s)) s from to)
        all_series (record { stored = []; unavailable = [] }) db

  unfoldable pub ingest_macro_via :
      DataProvider E F → ℕ → ℕ → Tables F → Result StoreError MacroIngestReport × Tables F
  ingest_macro_via provider from to db =
      ingest_series (λ s. points_of (some provider) s from to) all_series
        (record { stored = []; unavailable = [] }) db

-- What an ingestion of bars fails with.
pub data IngestError (E : Type 0) : Type 0 where
  not_fetched : E → IngestError E
  not_stored : StoreError → IngestError E

module _ {E F : Type 0} where
  abbrev pub add_rows :
      Result (IngestError E) ℕ × Tables F → ℕ → Result (IngestError E) ℕ × Tables F
  add_rows (err e, db) n = (err e, db)
  add_rows (ok total, db) n = (ok (n + total), db)

  abbrev pub and_more :
      Tables F × Result StoreError ℕ
      → (Tables F → Result (IngestError E) ℕ × Tables F)
      → Result (IngestError E) ℕ × Tables F
  and_more (db, err e) rest = (err (not_stored e), db)
  and_more (db, ok n) rest = add_rows (rest db) n

  abbrev pub write_bars :
      Result E (List (Bar F))
      → String
      → Tables F
      → (Tables F → Result (IngestError E) ℕ × Tables F)
      → Result (IngestError E) ℕ × Tables F
  write_bars (err e) source db rest = (err (not_fetched e), db)
  write_bars (ok []) source db rest = rest db
  write_bars (ok (b ∷ bars)) source db rest =
      and_more (upsert_bars (b ∷ bars) "daily" source db) rest

  unfoldable pub ingest_bars :
      DataProvider E F
      → String
      → List String
      → ℕ
      → ℕ
      → Tables F
      → Result (IngestError E) ℕ × Tables F
  ingest_bars provider source [] from to db = (ok 0, db)
  ingest_bars provider source (t ∷ universe) from to db =
      write_bars (provider.daily_bars t from to) source db
        (λ after. ingest_bars provider source universe from to after)

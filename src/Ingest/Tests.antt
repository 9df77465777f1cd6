-- ===== src/Ingest/Tests.antt =====
-- A provider that serves one of the series, without FRED, and the theorem at it.
use swing_x.Prelude.{ℕ, ◌≡◌, none, some, List, [], ◌∷◌, String}
use swing_x.Prelude.Int.{pos}
use swing_x.Prelude.Results.{Result, ok, err}
use swing_x.Float.Fixed.{Fixed, num}
use swing_x.Store.{
  LeadTimeTag, Tables, upsert, upsert_all, repeats, execute, in_chunks, upsert_macro,
}
use swing_x.Ingest.{
  DataProvider, MacroIngestReport, MacroPoint, MacroSeries, ingest_macro, ingest_series, points_of,
  preferred_source, select_provider,
}
use swing_x.Ingest.Report.{IsIngested, ingest_macro-IsIngested}

abbrev empty : Tables Fixed
empty = record { bars = []; features = []; macros = []; regimes = [] }

abbrev vix_on : ℕ → MacroPoint Fixed
vix_on ts = record {
  series = MacroSeries.vix;
  ts = ts;
  value = num (pos 1500);
  as_of = ts;
  lead_time = LeadTimeTag.end_of_day;
  source = "fmp";
}

abbrev serve : MacroSeries → ℕ → ℕ → Result String (List (MacroPoint Fixed))
serve MacroSeries.vix from to = ok (vix_on from ∷ vix_on to ∷ [])
serve MacroSeries.dxy from to = ok []
serve s from to = err "not served"

abbrev feed : DataProvider String Fixed
feed = record { daily_bars = λ t from to. ok []; macro_series = serve }

-- Two days of the one series are stored.
stored_vix :
    (report : MacroIngestReport)
    → (ingest_macro (some feed) none 1 2 empty).0 ≡ ok report
    → report.stored ≡ ("vix", 2) ∷ []
unfolding ingest_macro ingest_series upsert_macro in_chunks execute repeats upsert_all upsert
stored_vix report h = cc

ingest_macro-IsIngested_example :
    IsIngested
      (λ s. points_of (select_provider (some feed) none (preferred_source s)) s 1 2)
      (ingest_macro (some feed) none 1 2 empty).0
ingest_macro-IsIngested_example = ingest_macro-IsIngested (some feed) none 1 2 empty

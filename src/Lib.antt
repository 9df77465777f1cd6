-- ===== src/Lib.antt =====
-- A model of swing-X, an engine that discovers swing-trading strategies, and the theorems about it.
--
-- The engine labels past bars by the triple-barrier method (crates/se-labeler), searches for genomes,
-- which are conjunctions of feature predicates with a risk model (crates/se-core, crates/se-search), admits
-- a genome only through a promotion gate on out-of-sample metrics (crates/se-validation), and watches the
-- promoted strategies every day (crates/se-monitor).
--
--   Prelude      lists, options, results, integers and maps that the other files share
--   Float        `f64`: its operations as an interface and the IEEE 754 facts that proofs use. Float.Fixed
--                is a type of decimals that meets the laws and on which the tests run.
--   Core         crates/se-core: layer.rs, time.rs (sides and bars), ticker.rs, horizon.rs, risk.rs (with
--                Describe), strategy.rs
--   Store        crates/se-store and crates/se-core/src/feature.rs: the tables as lists of rows, the upserts in
--                chunks and the deletes. Pit: the reads as of a decision bar, pit.rs.
--   Features     crates/se-features: indicators.rs, the four layers and the event overlay (Events), on the reads
--                of Store.Pit. `ln`, the calendar (Features.Events.Calendar) and the private feeds
--                (Features.Hooks) are parameters.
--   Labeler      crates/se-labeler/src/triple_barrier.rs. `label_one_with_risk` gives a `Result`; an index
--                out of range, at which the source panics, is an error of the model's own (`panic`).
--   Regime       crates/se-core/src/regime.rs and crates/se-regime/src/classifier.rs. Regime.Engine: engine.rs, on
--                the tables of Store.
--   Search       crates/se-search. Rng, Catalog and Draw: rng.rs and the draws of seed.rs. Mutate (an operator
--                for each arm of its match) and Crossover: genome_ops.rs. Seed and Archetypes: the seeds of
--                seed.rs. RiskSearch: risk_search.rs. Score and Signature: score.rs and the
--                `Evaluated` of population.rs. Population, Survivors and Firewall: `next_generation`,
--                `select_survivors` and the era firewall of population.rs. Window: the `build_window` of
--                feature_matrix.rs. Backtest: backtest.rs and the datasets that it fills. Persist: persist.rs, whose table of strategies is kept as two lists. Observe: the catalog of
--                what was observed, `from_windows` of seed.rs. Materialize and Evolve: the manager of population.rs and
--                its search loop, on the rows of Persist. The generator is threaded through.
--   Validation   crates/se-validation: gate.rs and harness.rs, whose worker and Parquet writer are a
--                parameter (Validation.Harness.Worker)
--   Signals      crates/se-signal and the `Signal` of crates/se-core/src/signal.rs, with what the store, the
--                feature modules, the calendar and the formatter answer as a parameter (Signals.Desk)
--   Journal      crates/se-journal: fills.rs and, of lib.rs, the resolution of a paper trade on a table of bars
--                and the statistics of closed trades
--   Ingest       crates/se-cli/src/ingest.rs on the tables of Store, with the series of crates/se-provider/src/types.rs.
--                What a provider answers (Ingest.DataProvider) is a parameter.
--   Monitor      crates/se-monitor: Stats and Detect model detectors.rs; Store models the tables, queries
--                and side effects of lib.rs, and Daily its `run_daily_with`, on a store passed along
--
-- Loops are structural recursions on the lists that the source walks, so there is no fuel, but for the
-- integer square root of Float.Fixed, whose bisection of 64 steps covers every number of its tests, for the
-- chunks of an upsert, at most as many as rows, and for the walk back from the end of a month to a weekday, of
-- at most two days (last_weekday_of_month-last). Where the source panics at a date that does not exist, the
-- model gives no day.
-- Indices and counts are natural numbers. A generator's state is a number below 2^64, with its wrap-around
-- written out. Floats are any type with the operations of Float: a theorem that needs the laws of IEEE 754
-- comparisons has them as an argument. Keys are texts, and a map with text keys is an association list.
--
-- The exponential of the classifier, the logarithm, the text of a genome (`describe`) and the text of a number
-- are functions that the definitions take as arguments, as is the source of fresh identities, whose n-th value
-- is the n-th identity minted. The population and the search take any signature of genomes; that of the source
-- is Search.Signature. Where Rust sorts floats it treats two of them that do not compare as equal: the model
-- inserts by `<`, which agrees wherever no value is NaN.
--
-- Not modelled: the texts of errors, notes and descriptions; the failure of a database query; network,
-- files and configuration; and the concurrency of the reads of a window and of the windows of a universe.
pub mod Prelude
pub mod Float
pub mod Core
pub mod Labeler
pub mod Search
pub mod Validation
pub mod Monitor
pub mod Regime
pub mod Signals
pub mod Journal
pub mod Store
pub mod Features
pub mod Ingest

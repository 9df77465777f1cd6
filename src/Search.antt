-- ===== src/Search.antt =====
-- Crate `se-search`: the random generator, the feature catalog, and the operators on genomes.
pub mod Rng
pub mod Catalog
pub mod Draw
pub mod Mutate
pub mod Crossover
pub mod RiskSearch
pub mod Seed
pub mod Archetypes
pub mod Score
pub mod Firewall
pub mod Survivors
pub mod Persist
pub mod Backtest
pub mod Window
pub mod Signature
pub mod Population
pub mod Observe
pub mod Evolve
pub mod Materialize
pub mod Tests

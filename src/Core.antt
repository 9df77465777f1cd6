-- ===== src/Core.antt =====
-- Crate `se-core`: layers, sides and bars, horizons, risk geometry, genomes.
pub mod Layer
pub mod Market
pub mod Ticker
pub mod Horizon
pub mod Risk
pub mod Genome
pub mod Describe

-- ===== src/Tests.antt =====
-- The theorems at concrete inputs: databases in memory that keep the contracts, and environments
-- over them.
mod Table
mod InventoryDb
mod InventoryTests
mod CheckoutDb
mod CheckoutTests
mod MarketTests
mod ChaosTests
mod RoutesTests
mod CatalogTests
mod SeedTests
mod SetupTests
mod LoadGeneratorTests
mod CollectorTests

-- ===== src/Inventory.antt =====
-- The module inventory-service/: the products and their stock. Model holds the rows and the
-- resources, Environment what the service calls, and Products, Orders, Grpc the functions.
pub mod Model
pub mod Environment
pub mod Contract
pub mod Products
pub mod Rows
pub mod Steps
pub mod Sync
pub mod Orders
pub mod Grpc
pub mod Routes
pub mod Seed
pub mod Setup

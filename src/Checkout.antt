-- ===== src/Checkout.antt =====
-- The module checkout-service/: users, the products as the inventory service reports them, and
-- orders. Model holds the rows and the resources, Environment what the service calls, and
-- Products, Users, Orders and Grpc the functions.
pub mod Model
pub mod Environment
pub mod Contract
pub mod Products
pub mod Orders
pub mod Steps
pub mod Grpc
pub mod Routes
pub mod Seed
pub mod Setup

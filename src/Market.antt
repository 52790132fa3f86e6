-- ===== src/Market.antt =====
-- The two services together: what an order or a product in one of them means for the other, where
-- a client of the one calls the handlers of the other over a network that may lose a message.
pub mod Links
pub mod Orders
pub mod Refusals
pub mod Products
pub mod Mirror
pub mod Wire
pub mod Overflow

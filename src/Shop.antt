-- ===== src/Shop.antt =====
-- The shop: products, carts and orders.
pub mod Entity
pub mod Cart
pub mod Order
pub mod Stock
pub mod Checkout
pub mod Amounts
pub mod Progress
pub mod Contents
pub mod Prisma

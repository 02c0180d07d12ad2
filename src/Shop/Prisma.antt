-- ===== src/Shop/Prisma.antt =====
-- infrastructure/database/prisma: the repositories of the products and the orders, over Prisma
-- clients that are parameters.
pub mod Products
pub mod Orders
pub mod Carts

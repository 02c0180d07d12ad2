-- ===== src/Booking.antt =====
-- The booking of appointments: entities and interfaces, use cases, and the repository over Prisma.
pub mod Entity
pub mod Status
pub mod Lifecycle
pub mod Moves
pub mod History
pub mod Interval
pub mod Create
pub mod Availability
pub mod Prisma
pub mod Schedule
pub mod Booked

-- ===== src/Tests.antt =====
-- Runs of the model at concrete inputs, and the theorems at inputs that meet their hypotheses.
mod Store
mod People
mod Errors
mod Coupons
mod CouponRows
mod Bookings
mod Mugs
mod Shop
mod Access
mod Team
mod StaffRows
mod Features
mod Carts
mod Accounts
mod Reset
mod Registered
mod Tenants
mod Founding
mod Roles
mod Notifications
mod Webhooks

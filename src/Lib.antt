-- ===== src/Lib.antt =====
-- The core of the multi-tenant shop and booking API (TypeScript), as functions, with the theorems
-- that make it correct.
--
-- The program is layered. Use cases (core/application) take repositories and providers
-- (core/repositories, core/providers) as constructor arguments; repositories are implemented over
-- Prisma (infrastructure/database/prisma); middlewares (middleware) resolve the tenant and the user,
-- guard the routes, and turn thrown errors into answers. The model keeps these layers:
--
--   * Runtime: an async method is a function from a store to a result or a thrown value, and the
--     store. What was written before a throw stays written: only the repositories of roles and
--     staff open transactions, which are a call of the client. Runtime/Number has JavaScript's
--     fractional numbers as a parameter with the laws that are used.
--   * Errors: core/domain/errors/domain-errors.ts, types/error-codes.ts,
--     middleware/error.middleware.ts.
--   * Coupon: core/entities/coupon.entity.ts and core/application/coupons; Coupon/Prisma is
--     infrastructure/database/prisma/coupon.prisma-repository.ts.
--   * Booking: core/entities/appointment.entity.ts and core/application/booking; Booking/Prisma is
--     infrastructure/database/prisma/appointment.prisma-repository.ts. Booking/Schedule and
--     Booking/History run the use cases over it: the first for creations, the second for sequences
--     of cancellations and updates of the status.
--   * Shop: core/entities (product, cart, order), core/application/cart and core/application/order;
--     Shop/Prisma has infrastructure/database/prisma/cart.prisma-repository.ts and parts of
--     product.prisma-repository.ts and order.prisma-repository.ts. A checkout calls the cart's use
--     cases, the repositories of products, orders and coupons, and Shop/Stock states what it needs
--     of the product repository, which Shop/Prisma/Products provides.
--   * Access: core/entities/user.entity.ts, core/domain/auth.types.ts, core/application/auth (login
--     and resolve-authenticated-user), helpers/auth-token.helpers.ts and middleware (authenticate,
--     optional-authenticate, authorization, feature and super-admin-tenant-resolver).
--     Access/Authenticate puts the resolved user on the request, which the guards then read.
--   * Account: core/repositories/user.repository.interface.ts, core/application/auth (register,
--     forgot-password, reset-password, social-login) and core/application/users; Account/Prisma is
--     infrastructure/database/prisma/user.prisma-repository.ts. Account/Stored states what the use
--     cases need of the repository, Account/Prisma/Laws that it provides it, and Account/Prisma/Resets
--     runs the reset of a password over it. What a registration stores is what signing in reads.
--   * Tenant: core/entities/tenant.entity.ts, core/application/tenant, core/application/feature and
--     the repositories of tenants and features in infrastructure/database/prisma. Tenant/Request is
--     middleware/tenant.middleware.ts, which finds the tenant of a request before the user is known.
--   * Roles: core/application/roles, core/application/permissions and their repositories in
--     infrastructure/database/prisma. A new tenant gets its roles from them.
--   * Notify: core/utils/notification-settings.util.ts, core/services/notification.service.ts and
--     infrastructure/workers/notification.worker.ts, which takes the jobs that bookings and accounts
--     put on the queue.
--   * Team: core/application/users/assign-role.use-case.ts and the staff use cases of
--     core/application/booking. They change the membership that signing in reads. Team/Prisma is
--     infrastructure/database/prisma/staff.prisma-repository.ts, which provides what Team/Assigned
--     needs of it.
--   * Whatsapp: core/application/whatsapp and infrastructure/services/whatsapp-bot.service.ts.
--     Whatsapp/Webhook takes the events that WhatsApp sends, and Whatsapp/Dispatch compares it with
--     a list of events.
--
-- A repository's interface is a record of operations over a store; a use case is a function of that
-- record, as the class takes it in its constructor. Reads return a result and do not write. Prisma,
-- Redis, the queue, hashing and tokens are dependencies: their calls are parameters, and a theorem
-- that relies on them names the documented behaviour as a record of laws (IsClient, HasStock), which
-- the modules of Tests meet with stores in memory. Instants are integers, in milliseconds; the
-- present instant and the parsing of dates are arguments. Adding minutes to a date assumes that the
-- offset of the process's time zone does not change in between. Stock, amounts and durations are
-- integers; prices are the parameter of Runtime/Number. A missing text of a request is the empty
-- one. Hashes, random tokens and ids are the answers of providers, and arguments of the use cases.
-- Environments are compared without regard to the case of ASCII letters;
-- `toUpperCase`, which the codes of coupons go through, is a parameter without laws.
--
-- The only loop on fuel is the slot loop of Booking/Availability: seventeen rounds, one more than
-- the sixteen half hours from 9:00 to 17:00, and a theorem says that they are enough.
--
-- Not modelled: routes, controllers, presenters and response mappers, which pass values on; the
-- log, the sending of e-mails and WhatsApp messages, which are effects on services outside; the
-- container; scripts and seeds; services, and the catalogue (products, categories, banners and
-- slides).
pub mod Prelude
pub mod Errors
pub mod Runtime
pub mod Coupon
pub mod Booking
pub mod Shop
pub mod Access
pub mod Team
pub mod Tenant
pub mod Account
pub mod Roles
pub mod Notify
pub mod Whatsapp
pub mod Tests

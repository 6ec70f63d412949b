-- ===== src/Lib.antt =====
-- E-commerce backend: the services that move stock and money, as functions on a database.
--
-- The program is an Express API over Prisma. Its services read and write the tables of
-- prisma/schema.prisma, throw ApiError, and group writes with prisma.$transaction; payment gateways
-- are called between the writes. Here a service is a function from a database to a result and a
-- database: what was written before a throw stays, unless a transaction rolls it back.
--
-- - Store: the rows (Store/Rows), calls and errors (Store/Monad), the statements of Prisma
--   (Store/Statements), and the rules that carry invariants (Store/Invariants, Store/Frames) and
--   postconditions (Store/Outcomes, Store/Completion) through a service.
-- - Pricing: src/services/pricingEngine.ts (Pricing/Engine), src/utils/pricing.ts
--   (Pricing/Effective) and src/utils/allocation.ts (Pricing/Allocation); the numbers are the fractions
--   of Pricing/Fraction, with Pricing/Rounding and Pricing/Percentage.
-- - Catalog: recomputeProductAggregates of src/services/catalog/product.service.ts, and the stock of
--   the variants (Catalog/Stock).
-- - Payment: the registry of src/services/payment. No gateway is in the repository, so what one
--   answers is a parameter.
-- - Wallet: src/services/wallet and adjustUserWallet of src/services/user/user-admin.service.ts. Its
--   ledger is Wallet/Ledger, and the claim of a transaction is Wallet/Claim.
-- - Cart: src/services/shopping/cart.service.ts; Discount:
--   src/services/discount/discount-apply.service.ts; Shipping: calculateShippingCost of
--   src/services/shipping/shipping-company.service.ts and the estimate of
--   src/services/order/order.service.ts.
-- - Order: createOrder and updateOrderStatusAdmin of src/services/order/order.service.ts
--   (Order/Create, Order/Admin), order-payment.service.ts (Order/Payment), order-return.service.ts
--   (Order/Return), order-cancellation.service.ts and src/jobs/expire-stale-orders.job.ts
--   (Order/Cancellation).
-- - Services: the calls on the tables of the shop as one value, and runs of calls.
-- - Auth: src/utils/otp.ts (Auth/Identifier), src/services/otp/otp.service.ts (Auth/Otp),
--   src/services/auth/session.service.ts (Auth/Sessions), login-guard.service.ts (Auth/Login/Guard)
--   and auth.service.ts (Auth/Login). Auth/Bounds has the requests as one value, and runs of them.
-- - Tickets: src/services/ticket/ticket.service.ts, and src/jobs/auto-close-tickets.job.ts
--   (Tickets/AutoClose).
-- - Catalog/Categories: src/services/catalog/category.service.ts, with the walk below a category
--   (Catalog/Categories/Walk).
-- - Catalog/Slugs: src/utils/slug.ts. Catalog/Brands: src/services/catalog/brand.service.ts, with
--   src/utils/mediaSync.ts.
-- - Requests: src/middlewares/rateLimiter.ts (Requests/RateLimiter), src/utils/pagination.ts
--   (Requests/Pagination) and src/lib/distributedLock.ts (Requests/Lock).
-- - Tests: a small shop (Tests/Witnesses, Tests/Runs), accounts (Tests/Accounts), tickets,
--   categories and requests (Tests/Platform), and slugs and brands (Tests/Catalogue).
--
-- Accounts, tickets, categories and brands have states of their own (Auth/Rows, Tickets,
-- Catalog/Categories, Catalog/Brands): no call of theirs reads or writes the tables of the shop,
-- but that registration opens a wallet. The calls and their rules are the same, for every type of
-- state; Store/Tables has the statements.
--
-- Calls run one after the other; what happens between the statements of two calls at once is not
-- modelled. Amounts are whole numbers, the Float columns exact fractions. A query that asks for the
-- newest row takes the first of its table. The time is an argument. Fuel stands only in two loops:
-- the walk below a category, for which the depth of the forest is enough, and the search for a free
-- slug, for which one turn more than there are slugs is enough. Hashing, JWT, what Unicode says of a
-- text and the answers of Redis are parameters. Texts, lists for the
-- administration, attributes, variants, comments, exchange rates, content pages and the chat
-- engine are not modelled.
pub mod Base
pub mod Pricing
pub mod Store
pub mod Catalog
pub mod Payment
pub mod Wallet
pub mod Cart
pub mod Discount
pub mod Shipping
pub mod Order
pub mod Auth
pub mod Tickets
pub mod Requests
pub mod Services
pub mod Tests
